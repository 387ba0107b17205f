-- ===== src/Timers/Fires.antt =====
-- From starting a timer to its callback.
use native.Mathlib.Bridge.{le_prop}
use native.Mathlib.Nat.{ℕ_set}
use mathlib.Core.Logic.Or
use mathlib.Core.List.{Mem, not-mem-nil, mem-cons, mem-append, mem-cons_self}
use mathlib.Core.List.Perm
use cpp_rpc.Prelude.{
  ℕ, ◌+◌, ◌<◌, ◌≡◌, leb, refl, sym, ap, ◌∙◌, some, List, [], ◌∷◌, ◌++◌, map, arith, ◌==◌,
  if◌then◌else◌,
}
use cpp_rpc.Heap.{HeapOps}
use cpp_rpc.Timers.{TimerEntry, Manager, deadline, find_timer, enable_timer, collect_due}
use cpp_rpc.Timers.Entries.{count, find_timer-count, count-append, count-perm}
use cpp_rpc.Timers.Valid.{running, waiting, IsValid, count-parts}
use cpp_rpc.Timers.Enable.{enable_timer-enters}
use cpp_rpc.Timers.Due.{collect_due-Collected}

-- how often a timer is called back
unfoldable pub calls : ℕ → List ℕ → ℕ
calls t [] = 0
calls t (u ∷ us) = (if u == t then 1 else 0) + calls t us

calls-map : (t : ℕ) (es : List TimerEntry) → calls t (map (λ e. e.timer) es) ≡ count t es
unfolding calls count
calls-map t [] = refl
calls-map t (e ∷ es) = ground (arith, calls-map t es)

count_of_mem : (w : TimerEntry) (es : List TimerEntry) → Mem w es → 0 < count w.timer es
unfolding count
count_of_mem w [] m = absurd (not-mem-nil m)
count_of_mem w (x ∷ es) m =
    Or.elim le_prop (mem-cons.0 m) (λ same. let own = ap (λ e. e.timer) same in ground (arith))
      (λ later. omega (arith, count_of_mem w es later))

-- A timer that waits, once it runs, is the only one of its kind among those that run.
only_entry :
    (m : Manager) (t e j : ℕ)
    → IsValid m
    → find_timer t (waiting m) ≡ some j
    → 1 ≡ count t (record { timer = t; expired = e } ∷ running m)
unfolding count
only_entry m t e j v h =
    let limit = v.distinct t in
    let sides = count-parts t m in let there = find_timer-count t (waiting m) j h in ground arith

module _ (heap : HeapOps deadline) (now : ℕ) where
  -- the timers that the next round of `run` calls back
  abbrev pub due_now : Manager → List ℕ
  due_now m = (collect_due heap m.actived_timers now m).0

  -- A timer that waits and is enabled is called back in the next round once, if its deadline has come,
  -- and otherwise not.
  pub enabled_fires :
      (m : Manager) (t e j : ℕ)
      → IsValid m
      → find_timer t (waiting m) ≡ some j
      → calls t (due_now (enable_timer heap m t e)) ≡ (if leb e now then 1 else 0)
  enabled_fires m t e j v h =
      let w : TimerEntry = record { timer = t; expired = e } in
      let entered = enable_timer-enters heap m t e j v h in
      let m' = enable_timer heap m t e in
      let c = collect_due-Collected heap now m' entered.valid in
      let r = collect_due heap m'.actived_timers now m' in
      let whole = Perm.trans c.same entered.runs in
      let there : Mem w (c.fired ++ running r.1) =
        (Perm.mem_iff (Perm.symm whole)).0 mem-cons_self in
      let fires = count-perm t whole in
      let named = ap (calls t) c.names ∙ calls-map t c.fired in
      let once : count t c.fired + count t (running r.1) ≡ 1 =
        sym (only_entry m t e j v h ∙ sym fires ∙ count-append t c.fired (running r.1)) in
      Or.elim (ℕ_set _ _) (mem-append.0 there)
        (λ f.
          let due = c.due w f in
          let counted = count_of_mem w c.fired f in ground (arith, once, named))
        (λ g.
          let later = c.later w g in
          let counted = count_of_mem w (running r.1) g in ground (arith, once, named))
