-- ===== src/Timers/Register.antt =====
-- What registering a timer and removing it do.
use mathlib.Core.Path.{subst}
use cpp_rpc.Prelude.{
  ℕ, ◌-◌, ◌≡◌, refl, sym, ap, ◌∙◌, some, List, [], ◌∷◌, ◌++◌, length, drop, arith, append_assoc,
  Option-cases, inl, inr, ◌==◌, if◌then◌else◌,
}
use cpp_rpc.Heap.{HeapOps, IsHeap}
use cpp_rpc.Timers.{
  TimerEntry, Manager, deadline, find_timer, add_timer, disable_timer, remove_timer, erase_timer,
}
use cpp_rpc.Timers.Entries.{count, count-append, find_timer-none-count, find_timer-count}
use cpp_rpc.Timers.Valid.{
  running, waiting, IsValid, manager_of, manager_of-eq, running-manager_of, manager_of-IsValid,
}
use cpp_rpc.Timers.Disable.{disable_timer-Disabled}

count-erase_timer :
    (t u : ℕ) (es : List TimerEntry)
    → count u (erase_timer t es) ≡ (if t == u then count u es - 1 else count u es)
unfolding count erase_timer
count-erase_timer t u [] = ground arith
count-erase_timer t u (e ∷ es) = ground (arith, count-erase_timer t u es)

-- Registering a timer keeps a valid manager valid, and what runs as it is; the timer has one entry
-- then.
pub record Registered (m : Manager) (t : ℕ) (m' : Manager) : Type 0 where
  pub valid : IsValid m'
  pub runs : running m' ≡ running m
  pub once : count t m'.timers ≡ 1

add_parts :
    (p r : List TimerEntry) (t : ℕ)
    → IsValid (manager_of p r)
    → Registered (manager_of p r) t (add_timer (manager_of p r) t)
unfolding add_timer count
add_parts p r t v = elim (Option-cases (find_timer t (p ++ r))) [
  | inl e ↦
      let w : TimerEntry = record { timer = t; expired = 0 } in
      let result : add_timer (manager_of p r) t ≡ manager_of p (r ++ w ∷ []) =
        rw (e, add_timer)
          (ap (λ xs. record { timers = xs; actived_timers = length p })
            (append_assoc p r (w ∷ []))) in
      let absent = find_timer-none-count t (p ++ r) e in
      let ordered = subst (IsHeap deadline) (running-manager_of p r) v.heap in
      rw result (record {
        valid = manager_of-IsValid p (r ++ w ∷ []) ordered (λ u.
            let limit = v.distinct u in
            let parts = count-append u p r in
            let added = count-append u r (w ∷ []) in ground (arith, absent));
        runs = running-manager_of p (r ++ w ∷ []) ∙ sym (running-manager_of p r);
        once = ground (
          arith,
          count-append t p (r ++ w ∷ []),
          count-append t r (w ∷ []),
          count-append t p r,
          absent,
        );
      })
  | inr (j, e) ↦
      rw (e, add_timer)
        (record {
          valid = v;
          runs = refl;
          once = omega (arith, v.distinct t, find_timer-count t (p ++ r) j e);
        })
]

pub add_timer-Registered : (m : Manager) (t : ℕ) → IsValid m → Registered m t (add_timer m t)
add_timer-Registered m t v =
    let parts = manager_of-eq m v.bounded in
    subst (λ x. Registered x t (add_timer x t)) (sym parts)
      (add_parts (running m) (waiting m) t (subst IsValid parts v))

module _ (heap : HeapOps deadline) where
  -- A removed timer has no entry, and the other timers keep theirs. The range on which a timer that
  -- runs is disabled has to be a heap.
  pub remove_timer-count :
      (m : Manager) (t u : ℕ)
      → IsValid m
      → ((pos : ℕ) → find_timer t (running m) ≡ some pos → IsHeap deadline (drop pos (running m)))
      → count u (remove_timer heap m t).timers ≡ (if t == u then 0 else count u m.timers)
  unfolding remove_timer disable_timer count
  remove_timer-count m t u v ordered =
      let kept : count u (disable_timer heap m t).timers ≡ count u m.timers =
        elim (Option-cases (find_timer t (running m))) [
          | inl e ↦ rw (e, disable_timer) refl
          | inr (pos, e) ↦ (disable_timer-Disabled heap m t pos v e (ordered pos e)).distinct u
        ] in
      let erased = count-erase_timer t u (disable_timer heap m t).timers in
      let limit = v.distinct u in ground arith
