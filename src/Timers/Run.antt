-- ===== src/Timers/Run.antt =====
-- The thread of the manager, and Timers that are started again, restart or are gone.
use cpp_rpc.Prelude.{
  ℕ, ◌+◌, ◌≡◌, refl, Bool, true, false, Option, none, some, List, [], ◌∷◌, leb, if◌then◌else◌,
  Option-cases, inl, inr, arith, Holds, Holds-bind, Holds-then,
}
use cpp_rpc.Assoc.{nat_key, lookup, insert, lookup-insert}
use cpp_rpc.Heap.{HeapOps}
use cpp_rpc.Timers.{Manager, deadline, find_timer, enable_timer}
use cpp_rpc.Timers.Objects.{
  Kind, once, circle, Timer, World, is_time_out, start, restart, rearm, invoke, time_out, time_outs,
  run_round, run, after,
}
use cpp_rpc.Timers.Valid.{waiting, IsValid}
use cpp_rpc.Timers.Enable.{Entered, enable_timer-enters, enable_timer-others}
use cpp_rpc.Timers.Due.{collect_due-Collected}

pub enable_timer-IsValid :
    (heap : HeapOps deadline) (m : Manager) (t e : ℕ)
    → IsValid m
    → IsValid (enable_timer heap m t e)
enable_timer-IsValid heap m t e v = elim (Option-cases (find_timer t (waiting m))) [
  | inl a ↦ rw (enable_timer-others heap m t e a) v
  | inr (j, a) ↦ (enable_timer-enters heap m t e j v a).valid
]

module _ {S : Type 0} (P : S → Type 0) where
  Holds-if : (b : Bool) (x y : Option S) → Holds P x → Holds P y → Holds P (if b then x else y)
  Holds-if true x y p q = p
  Holds-if false x y p q = q

module _ {F : Type 0} (heap : HeapOps deadline) where
  abbrev pub HasValid : World F → Type 0
  HasValid w = IsValid w.manager

  rearm-HasValid :
      (k : Kind) (t : ℕ) (o : Timer F) (w : World F) → HasValid w → HasValid (rearm heap k t o w)
  unfolding rearm
  rearm-HasValid once t o w v = v
  rearm-HasValid circle t o w v = enable_timer-IsValid heap w.manager t (after w.now o.interals) v

  restart-HasValid : (t : ℕ) (w : World F) → HasValid w → Holds HasValid (restart heap t w)
  unfolding restart Holds
  restart-HasValid t w v =
      Holds-then HasValid (lookup t w.objects) _ λ o e. rearm-HasValid o.type t o w v

  module _ (call : F → World F → Option (World F))
      (keeps : (f : F) (w : World F) → HasValid w → Holds HasValid (call f w)) where
    invoke-HasValid :
        (f : Option F) (w : World F) → HasValid w → Holds HasValid (invoke heap call f w)
    unfolding invoke Holds
    invoke-HasValid none w v = v
    invoke-HasValid (some f) w v = keeps f w v

    time_out-HasValid : (t : ℕ) (w : World F) → HasValid w → Holds HasValid (time_out heap call t w)
    unfolding time_out
    time_out-HasValid t w v = Holds-then HasValid (lookup t w.objects) _ λ o e.
        Holds-bind HasValid HasValid (invoke heap call o.func w) _ (invoke-HasValid o.func w v)
          (λ w' e' v'. restart-HasValid t w' v')

    time_outs-HasValid :
        (ts : List ℕ) (w : World F) → HasValid w → Holds HasValid (time_outs heap call ts w)
    unfolding time_outs Holds
    time_outs-HasValid [] w v = v
    time_outs-HasValid (t ∷ ts) w v =
        Holds-bind HasValid HasValid (time_out heap call t w) _ (time_out-HasValid t w v)
          (λ w' e v'. time_outs-HasValid ts w' v')

    run_round-HasValid : (w : World F) → HasValid w → Holds HasValid (run_round heap call w)
    unfolding run_round
    run_round-HasValid w v =
        time_outs-HasValid _ _ (collect_due-Collected heap w.now w.manager v).valid

    -- The thread keeps the manager valid, in any number of rounds, with callbacks that keep it valid.
    pub run-HasValid :
        (clock : List ℕ) (w : World F) → HasValid w → Holds HasValid (run heap call clock w)
    unfolding run Holds
    run-HasValid [] w v = v
    run-HasValid (now ∷ more) w v = Holds-if HasValid w.stop_flag _ _ v (
        Holds-bind HasValid HasValid (run_round heap call (record w { now = now })) _
          (run_round-HasValid (record w { now = now }) v) (λ w' e' v'. run-HasValid more w' v'))

  -- the manager as it was, and a Timer that tells another deadline
  pub record Ignored (w w' : World F) (t intervals : ℕ) : Type 0 where
    pub same : w'.manager ≡ w.manager
    pub told : is_time_out t w' ≡ some (leb (w.now + intervals) w.now)

  -- Starting a timer that runs, or that is not registered, changes the Timer's own deadline, which
  -- is_time_out tells, but not that of the manager.
  pub start-running :
      (t intervals : ℕ) (w : World F) (o : Timer F)
      → lookup t w.objects ≡ some o
      → find_timer t (waiting w.manager) ≡ none
      → (w' : World F) × (start heap t intervals w ≡ some w') × Ignored w w' t intervals
  unfolding start is_time_out
  start-running t intervals w o there runs =
      let e = w.now + intervals in
      let o' : Timer F = record o { interals = some intervals; expired = some e } in
      let w' : World F = record w {
        manager = enable_timer heap w.manager t e;
        objects = insert t o' w.objects;
      } in
      let own : lookup t w'.objects ≡ some o' = ground (arith, lookup-insert t t o' w.objects) in
      (
        w',
        rw (start, there) refl,
        record {
          same = enable_timer-others heap w.manager t e runs;
          told = rw (is_time_out, own) refl;
        },
      )

  -- A CIRCLE timer that has timed out runs again, one interval later.
  pub restart-circle :
      (t j i : ℕ) (w : World F) (o : Timer F)
      → IsValid w.manager
      → lookup t w.objects ≡ some o
      → o.type ≡ circle
      → o.interals ≡ some i
      → find_timer t (waiting w.manager) ≡ some j
      → (w' : World F) × (restart heap t w ≡ some w')
        × Entered heap w.manager t (w.now + i) w'.manager
  unfolding restart rearm after
  restart-circle t j i w o v there kind interval waits =
      let again = enable_timer-enters heap w.manager t (w.now + i) j v waits in
      (rearm heap circle t o w, rw (restart, there, kind) refl, rw interval again)
