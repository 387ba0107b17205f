-- ===== src/Timers/Enable.antt =====
-- What enabling a timer does.
use mathlib.Core.List.{Perm}
use mathlib.Core.List.Perm
use mathlib.Core.Path.{subst, refl}
use cpp_rpc.Prelude.{
  ℕ, suc, ◌+◌, ◌<◌, ◌≡◌, sym, ap, ap₂, ◌∙◌, none, some, List, [], ◌∷◌, ◌++◌, length, get_elem?, set,
  drop, length-append, take-append, drop-append, arith, append_assoc,
}
use cpp_rpc.Heap.{HeapOps, IsHeap}
use cpp_rpc.Heap.Swap.{get_elem?_lt, set-perm, swap, length-perm, length-set, get_elem?-set}
use cpp_rpc.Timers.{TimerEntry, Manager, deadline, on_range, find_timer, enable_timer}
use cpp_rpc.Timers.Entries.{
  count, count-perm, find_timer-Found, set-append, swap-append, swap_front, on_range_prefix,
}
use cpp_rpc.Timers.Valid.{
  running, waiting, IsValid, manager_of, manager_of-eq, running-manager_of, waiting-manager_of,
  manager_of-IsValid, count-parts,
}

module _ (heap : HeapOps deadline) where
  -- the result as a heap operation on the timers that run
  record Enabled (m : Manager) (t e : ℕ) (m' : Manager) : Type 0 where
    old : TimerEntry
    old_timer : old.timer ≡ t
    rest : List TimerEntry
    result :
        m' ≡ manager_of (heap.push_heap (running m ++ record { timer = t; expired = e } ∷ [])) rest
    waited : Perm (old ∷ rest) (waiting m)

  -- The entry of the timer, written and put first among those that wait.
  moved :
      (p r : List TimerEntry) (j : ℕ) (w old : TimerEntry)
      → get_elem? r j ≡ some old
      → j < length r
      → (rest : List TimerEntry) × (swap (set (p ++ r) (length p + j) w) (length p) (length p + j)
          ≡ (p ++ w ∷ []) ++ rest)
        × Perm (old ∷ rest) r
  moved p r j w old at inside =
      let s = set r j w in
      let written : get_elem? s j ≡ some w = ground (arith, get_elem?-set r j j w) in
      let (x, first) = get_elem?_lt s 0 (omega (arith, length-set r j w, inside)) in
      let (rest, front, same) = swap_front s j w written in
      let traded =
        Perm.trans (Perm.swap old w rest)
          (Perm.trans (Perm.cons old same) (set-perm r j old w at)) in
      let here : length p ≡ length p + 0 = omega arith in
      (
        rest,
        ap (λ u. swap u (length p) (length p + j)) (set-append p r j w)
            ∙ ap (λ i. swap (p ++ s) i (length p + j)) here
            ∙ swap-append p s 0 j x w first written
            ∙ ap (λ u. p ++ u) front
            ∙ sym (append_assoc p (w ∷ []) rest),
        Perm.cons_inv traded,
      )

  enable_parts :
      (p r : List TimerEntry) (t e j : ℕ)
      → IsHeap deadline p
      → find_timer t r ≡ some j
      → Enabled (manager_of p r) t e (enable_timer heap (manager_of p r) t e)
  unfolding enable_timer
  enable_parts p r t e j ordered h =
      let f = find_timer-Found t r j h in
      let w : TimerEntry = record { timer = t; expired = e } in
      let found : find_timer t (drop (length p) (p ++ r)) ≡ some j =
        ap (find_timer t) (drop-append p r) ∙ h in
      let (rest, entered, same) = moved p r j w f.entry f.at f.inside in
      let size : length (p ++ w ∷ []) ≡ suc (length p) = omega (arith, length-append p (w ∷ [])) in
      let kept : length (heap.push_heap (p ++ w ∷ [])) ≡ suc (length p) =
        length-perm (heap.push_lem p w ordered).same in
      rw (found, enable_timer)
        (record {
          old = f.entry;
          old_timer = f.of_timer;
          rest = rest;
          result =
              ap₂ (λ n xs. record { timers = xs; actived_timers = n }) (sym kept)
                (ap₂ (λ n xs. on_range heap.push_heap 0 n xs) (sym size) entered
                  ∙ on_range_prefix heap.push_heap (p ++ w ∷ []) rest)
              ∙ ap (λ u. manager_of (heap.push_heap (u ++ w ∷ [])) rest) (sym (take-append p r));
          waited = rw (drop-append p r) same;
        })

  -- The timer's entry has changed sides, with the new deadline.
  pub record Entered (m : Manager) (t e : ℕ) (m' : Manager) : Type 0 where
    pub valid : IsValid m'
    pub runs : Perm (running m') (record { timer = t; expired = e } ∷ running m)
    pub old : TimerEntry
    pub old_timer : old.timer ≡ t
    pub waited : Perm (old ∷ waiting m') (waiting m)

  Enabled-Entered :
      (m : Manager) (t e : ℕ) (m' : Manager) → IsValid m → Enabled m t e m' → Entered m t e m'
  unfolding count
  Enabled-Entered m t e m' v n =
      let w : TimerEntry = record { timer = t; expired = e } in
      let pushed = heap.push_lem (running m) w v.heap in
      let p = heap.push_heap (running m ++ w ∷ []) in
      let whole : IsValid (manager_of p n.rest) = manager_of-IsValid p n.rest pushed.heap (λ u.
        let sides = count-perm u pushed.same in
        let others = count-perm u n.waited in
        let all = count-parts u m in
        let limit = v.distinct u in let own = n.old_timer in ground (arith)) in
      record {
        valid = rw n.result whole;
        runs = rw (n.result, running-manager_of p n.rest) pushed.same;
        old = n.old;
        old_timer = n.old_timer;
        waited = rw (n.result, waiting-manager_of p n.rest) n.waited;
      }

  -- Enabling a registered timer that does not run: its one entry changes sides with the new deadline, the
  -- rest stays on its side, and the manager stays valid.
  pub enable_timer-enters :
      (m : Manager) (t e j : ℕ)
      → IsValid m
      → find_timer t (waiting m) ≡ some j
      → Entered m t e (enable_timer heap m t e)
  enable_timer-enters m t e j v h = Enabled-Entered m t e _ v (
      subst (λ x. Enabled x t e (enable_timer heap x t e)) (sym (manager_of-eq m v.bounded))
        (enable_parts (running m) (waiting m) t e j v.heap h))

  pub enable_timer-others :
      (m : Manager) (t e : ℕ) → find_timer t (waiting m) ≡ none → enable_timer heap m t e ≡ m
  unfolding enable_timer
  enable_timer-others m t e h = rw (h, enable_timer) refl
