-- ===== src/Timers/Due.antt =====
-- What a round of `run` collects.
use native.Mathlib.Bridge.{le_prop}
use mathlib.Core.Path.{subst}
use mathlib.Core.List.{
  Mem, Perm, Pairwise, not-mem-nil, mem-cons_of_mem, forall_mem-cons, mem-append_left, perm_middle,
}
use mathlib.Core.List.Perm
use cpp_rpc.Prelude.{
  ℕ, zero, suc, ◌+◌, ◌-◌, ◌<◌, ◌≤◌, ◌≡◌, refl, sym, ap, ap₂, ◌∙◌, none, some, List, [], ◌∷◌, ◌++◌,
  map, length, length-take, leb, le→leb, leb→le, arith, append_assoc, Bool-cases, inl, inr,
}
use cpp_rpc.Heap.{HeapOps, IsHeap, key_at}
use cpp_rpc.Heap.Swap.{length-perm}
use cpp_rpc.Heap.Order.{root_least}
use cpp_rpc.Timers.{TimerEntry, Manager, deadline, on_range, take_due, collect_due}
use cpp_rpc.Timers.Entries.{count, count-append, count-perm, on_range_prefix}
use cpp_rpc.Timers.Valid.{
  running, waiting, IsValid, manager_of, manager_of-eq, running-manager_of, waiting-manager_of,
  manager_of-IsValid,
}

abbrev pub IsSorted : List TimerEntry → Type 0
IsSorted = Pairwise (λ a b. a.expired ≤ b.expired)

least_of_mem :
    (p : List TimerEntry) (b : ℕ)
    → ((i : ℕ) → i < length p → b ≤ key_at deadline p i)
    → (e : TimerEntry) → Mem e p
    → b ≤ e.expired
unfolding key_at
least_of_mem [] b h = λ e m. absurd (not-mem-nil m)
least_of_mem (x ∷ p) b h =
    (forall_mem-cons λ e. le_prop).1
      (h 0 (omega arith), least_of_mem p b λ i q. h (suc i) (omega arith))

-- the first entry of a heap has the first deadline
heap_front :
    (x : TimerEntry) (p : List TimerEntry)
    → IsHeap deadline (x ∷ p)
    → (e : TimerEntry) → Mem e (x ∷ p)
    → x.expired ≤ e.expired
unfolding key_at
heap_front x p h = least_of_mem (x ∷ p) x.expired (λ i q. root_least deadline (x ∷ p) i h q)

-- no timer has two entries after its first entry has changed sides
after_pop :
    (x : TimerEntry) (p others r : List TimerEntry)
    → Perm others p
    → IsValid (manager_of (x ∷ p) r)
    → (t : ℕ) → count t others + count t (x ∷ r) ≤ 1
unfolding count
after_pop x p others r same v t =
    let once_each = v.distinct t in
    let parts = count-append t (x ∷ p) r in
    let others = count-perm t same in omega (arith, once_each, parts, others)

module _ (heap : HeapOps deadline) (now : ℕ) where
  abbrev timers_of : List TimerEntry → ℕ → Manager
  timers_of xs n = record { timers = xs; actived_timers = n }

  take_due-front :
      (x : TimerEntry) (p r : List TimerEntry)
      → x.expired ≤ now
      → take_due heap now (manager_of (x ∷ p) r)
        ≡ some (
          x.timer,
          timers_of (on_range heap.pop_heap 0 (suc (length p)) (x ∷ p ++ r)) (suc (length p) - 1),
        )
  unfolding take_due
  take_due-front x p r due = rw (take_due, le→leb x.expired now due) (ground arith)

  take_due-due :
      (x : TimerEntry) (p r : List TimerEntry)
      → (h : IsHeap deadline (x ∷ p)) → x.expired ≤ now
      → take_due heap now (manager_of (x ∷ p) r)
        ≡ some (x.timer, manager_of (heap.pop_lem x p h).others (x ∷ r))
  take_due-due x p r h due =
      let popped = heap.pop_lem x p h in
      let size : length p ≡ length popped.others = sym (length-perm popped.same) in
      let parts : on_range heap.pop_heap 0 (suc (length p)) (x ∷ p ++ r) ≡ popped.others ++ x ∷ r =
        on_range_prefix heap.pop_heap (x ∷ p) r
        ∙ ap (λ u. u ++ r) popped.split
        ∙ append_assoc popped.others (x ∷ []) r in
      let fewer : suc (length p) - 1 ≡ length popped.others = omega (arith, size) in
      take_due-front x p r due ∙ ap₂ (λ n xs. some (x.timer, timers_of xs n)) fewer parts

  take_due-later :
      (x : TimerEntry) (p r : List TimerEntry)
      → now < x.expired
      → take_due heap now (manager_of (x ∷ p) r) ≡ none
  unfolding take_due
  take_due-later x p r later = ground arith

  take_due-idle : (r : List TimerEntry) → take_due heap now (manager_of [] r) ≡ none
  unfolding take_due
  take_due-idle r = refl

  -- what a round collects, and the manager that it leaves
  pub record Collected (m : Manager) (r : List ℕ × Manager) : Type 0 where
    pub fired : List TimerEntry
    pub names : r.0 ≡ map (λ e. e.timer) fired
    pub sorted : IsSorted fired
    pub due : (e : TimerEntry) → Mem e fired → e.expired ≤ now
    pub later : (e : TimerEntry) → Mem e (running r.1) → now < e.expired
    pub valid : IsValid r.1
    pub same : Perm (fired ++ running r.1) (running m)
    pub waited : Perm (fired ++ waiting m) (waiting r.1)

  -- one step before what is collected from the rest
  Collected-step :
      (x : TimerEntry) (p others r : List TimerEntry) (c : List ℕ × Manager)
      → x.expired ≤ now
      → ((e : TimerEntry) → Mem e p → x.expired ≤ e.expired)
      → Perm others p
      → Collected (manager_of others (x ∷ r)) c
      → Collected (manager_of (x ∷ p) r) (x.timer ∷ c.0, c.1)
  Collected-step x p others r c due front same k =
      let runs = subst (Perm (k.fired ++ running c.1)) (running-manager_of others (x ∷ r)) k.same in
      let all = Perm.trans runs same in
      let waits =
        subst (λ u. Perm (k.fired ++ u) (waiting c.1)) (waiting-manager_of others (x ∷ r))
          k.waited in
      record {
        fired = x ∷ k.fired;
        names = ap (◌∷◌ x.timer) k.names;
        sorted =
            Pairwise.cons (λ e m. front e ((Perm.mem_iff all).0 (mem-append_left _ m))) k.sorted;
        due = (forall_mem-cons λ e. le_prop).1 (due, k.due);
        later = k.later;
        valid = k.valid;
        same = rw (running-manager_of (x ∷ p) r) (Perm.cons x all);
        waited =
            rw (waiting-manager_of (x ∷ p) r)
              (Perm.trans (Perm.symm (perm_middle k.fired r)) waits);
      }

  Collected-none :
      (p r : List TimerEntry)
      → IsValid (manager_of p r)
      → ((e : TimerEntry) → Mem e p → now < e.expired)
      → Collected (manager_of p r) ([], manager_of p r)
  Collected-none p r v later = record {
    fired = [];
    names = refl;
    sorted = Pairwise.nil;
    due = λ e m. absurd (not-mem-nil m);
    later = rw (running-manager_of p r) later;
    valid = v;
    same = Perm.rfl;
    waited = Perm.rfl;
  }

  collect_parts :
      (k : ℕ) (p r : List TimerEntry)
      → length p ≤ k
      → IsValid (manager_of p r)
      → Collected (manager_of p r) (collect_due heap k now (manager_of p r))
  unfolding collect_due
  collect_parts zero (x ∷ p) r f v = absurd (omega arith)
  collect_parts zero [] r f v = Collected-none [] r v (λ e m. absurd (not-mem-nil m))
  collect_parts (suc k) [] r f v =
      rw (take_due-idle r, collect_due) (Collected-none [] r v (λ e m. absurd (not-mem-nil m)))
  collect_parts (suc k) (x ∷ p) r f v =
      let h = subst (IsHeap deadline) (running-manager_of (x ∷ p) r) v.heap in
      let front = heap_front x p h in
      elim (Bool-cases (leb x.expired now)) [
        | inl e ↦
            let due = leb→le x.expired now e in
            let popped = heap.pop_lem x p h in
            let fewer : IsValid (manager_of popped.others (x ∷ r)) =
              manager_of-IsValid popped.others (x ∷ r) popped.heap
                (after_pop x p popped.others r popped.same v) in
            rw (take_due-due x p r h due, collect_due)
              (Collected-step x p popped.others r _ due (λ e m. front e (mem-cons_of_mem x m))
                popped.same
                (collect_parts k popped.others (x ∷ r) (omega (arith, length-perm popped.same, f))
                  fewer))
        | inr e ↦
            let later : now < x.expired = ground arith in
            rw (take_due-later x p r later, collect_due)
              (Collected-none (x ∷ p) r v (λ e m. omega (arith, later, front e m)))
      ]

  -- The inner loop of `run` on a valid manager collects exactly the timers that are due, in the order of
  -- their deadlines; the others run on, later than now, no entry is lost, and the manager stays valid.
  pub collect_due-Collected :
      (m : Manager) → IsValid m → Collected m (collect_due heap m.actived_timers now m)
  collect_due-Collected m v =
      let parts = manager_of-eq m v.bounded in
      subst (λ x. Collected x (collect_due heap m.actived_timers now x)) (sym parts)
        (collect_parts m.actived_timers (running m) (waiting m)
          (omega (arith, length-take m.actived_timers m.timers)) (subst IsValid parts v))
