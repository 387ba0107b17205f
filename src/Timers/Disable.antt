-- ===== src/Timers/Disable.antt =====
-- What disabling, adding and removing a timer do.
use Prim.Native.Nat.add
use mathlib.Core.Path.{subst}
use mathlib.Core.List.{Perm, perm_middle}
use mathlib.Core.List.Perm
use cpp_rpc.Prelude.{
  ℕ, zero, suc, ◌+◌, ◌-◌, ◌<◌, ◌≤◌, ◌≡◌, refl, sym, ap, ap₂, ◌∙◌, some, List, [], ◌∷◌, ◌++◌, length,
  get_elem?, take, drop, length-append, length-drop, arith, append_assoc, drop-append, take-append,
}
use cpp_rpc.Heap.{HeapOps, IsHeap, key_at}
use cpp_rpc.Heap.Swap.{length-perm}
use cpp_rpc.Timers.{TimerEntry, Manager, deadline, on_range, find_timer, disable_timer}
use cpp_rpc.Timers.Entries.{count, count-append, count-perm, find_timer-Found}
use cpp_rpc.Timers.Valid.{
  running, waiting, IsValid, manager_of, manager_of-eq, running-manager_of, waiting-manager_of,
}

module _ {A : Type 0} where
  -- A list around one of its items.
  pub around :
      (xs : List A) (i : ℕ) (x : A)
      → get_elem? xs i ≡ some x
      → (a : List A) × (b : List A) × (xs ≡ a ++ x ∷ b) × (length a ≡ i)
  around [] i x e = cc
  around (y ∷ xs) zero x e = let same : y ≡ x = cc in ([], xs, ap (λ u. u ∷ xs) same, refl)
  around (y ∷ xs) (suc i) x e =
      let (a, b, parts, size) = around xs i x e in (y ∷ a, b, ap (◌∷◌ y) parts, ap suc size)

  pub middle-perm : (a b c : List A) → Perm b c → Perm (a ++ b) (a ++ c)
  middle-perm [] b c p = p
  middle-perm (x ∷ a) b c p = Perm.cons x (middle-perm a b c p)

behind_none : (a b : List TimerEntry) → length a ≡ 0 → IsHeap deadline b → IsHeap deadline (a ++ b)
behind_none [] b none_before h = h
behind_none (x ∷ a) b none_before h = absurd (omega arith)

on_range_middle :
    (f : List TimerEntry → List TimerEntry) (a b c : List TimerEntry)
    → on_range f (length a) (length (a ++ b)) ((a ++ b) ++ c) ≡ a ++ f b ++ c
unfolding on_range
on_range_middle f a b c =
    let first : take (length a) ((a ++ b) ++ c) ≡ a =
      ap (take (length a)) (append_assoc a b c) ∙ take-append a (b ++ c) in
    let whole : drop (length a) (take (length (a ++ b)) ((a ++ b) ++ c)) ≡ b =
      ap (drop (length a)) (take-append (a ++ b) c) ∙ drop-append a b in
    let last : drop (length (a ++ b)) ((a ++ b) ++ c) ≡ c = drop-append (a ++ b) c in
    ap₂ (λ u v. u ++ f v ++ drop (length (a ++ b)) ((a ++ b) ++ c)) first whole
    ∙ ap (λ u. a ++ f b ++ u) last

module _ (heap : HeapOps deadline) where
  -- The entry at `pos` has changed sides.
  pub record Disabled (m : Manager) (t pos : ℕ) (m' : Manager) : Type 0 where
    pub bounded : m'.actived_timers ≤ length m'.timers
    pub gone : TimerEntry
    pub gone_timer : gone.timer ≡ t
    pub runs : Perm (gone ∷ running m') (running m)
    pub waited : waiting m' ≡ gone ∷ waiting m
    pub distinct : (u : ℕ) → count u m'.timers ≡ count u m.timers
    pub front : pos ≡ 0 → IsHeap deadline (running m')

  disable_parts :
      (a b r : List TimerEntry) (x : TimerEntry) (t : ℕ)
      → find_timer t (a ++ x ∷ b) ≡ some (length a)
      → x.timer ≡ t
      → IsHeap deadline (x ∷ b)
      → Disabled
          (manager_of (a ++ x ∷ b) r)
          t
          (length a)
          (disable_timer heap (manager_of (a ++ x ∷ b) r) t)
  unfolding disable_timer count
  disable_parts a b r x t found own ordered =
      let popped = heap.pop_lem x b ordered in
      let p = a ++ popped.others in
      let there : find_timer t (take (length (a ++ x ∷ b)) ((a ++ x ∷ b) ++ r)) ≡ some (length a) =
        ap (find_timer t) (take-append (a ++ x ∷ b) r) ∙ found in
      let split : on_range heap.pop_heap (length a) (length (a ++ x ∷ b)) ((a ++ x ∷ b) ++ r)
          ≡ p ++ x ∷ r =
        on_range_middle heap.pop_heap a (x ∷ b) r
        ∙ ap (λ u. (a ++ u) ++ r) popped.split
        ∙ append_assoc a (popped.others ++ x ∷ []) r
        ∙ ap (λ u. a ++ u) (append_assoc popped.others (x ∷ []) r)
        ∙ sym (append_assoc a popped.others (x ∷ r)) in
      let fewer : length (a ++ x ∷ b) - 1 ≡ length p =
        omega (
          arith,
          length-append a (x ∷ b),
          length-append a popped.others,
          length-perm popped.same,
        ) in
      let result : disable_timer heap (manager_of (a ++ x ∷ b) r) t ≡ manager_of p (x ∷ r) =
        rw (there, disable_timer)
          (ap₂ (λ n xs. record { timers = xs; actived_timers = n }) fewer split) in
      rw result (record {
        bounded = omega (arith, length-append p (x ∷ r));
        gone = x;
        gone_timer = own;
        runs =
            rw (running-manager_of p (x ∷ r), running-manager_of (a ++ x ∷ b) r)
              (Perm.trans (Perm.cons x (middle-perm a popped.others b popped.same))
                (Perm.symm (perm_middle a b)));
        waited =
            waiting-manager_of p (x ∷ r) ∙ ap (◌∷◌ x) (sym (waiting-manager_of (a ++ x ∷ b) r));
        distinct = λ u.
            let same = count-perm u popped.same in
            omega (
              arith,
              same,
              count-append u p (x ∷ r),
              count-append u a popped.others,
              count-append u (a ++ x ∷ b) r,
              count-append u a (x ∷ b),
            );
        front = λ none_before.
            rw (running-manager_of p (x ∷ r)) (behind_none a popped.others none_before popped.heap);
      })

  -- Disabling a timer that runs, where the entries from its own on are a heap by themselves: its entry
  -- waits, the entries of the others run on, no timer gains or loses one, and the heap is in order if the
  -- timer was in front.
  pub disable_timer-Disabled :
      (m : Manager) (t pos : ℕ)
      → IsValid m
      → find_timer t (running m) ≡ some pos
      → IsHeap deadline (drop pos (running m))
      → Disabled m t pos (disable_timer heap m t)
  disable_timer-Disabled m t pos v found ordered =
      let f = find_timer-Found t (running m) pos found in
      let (a, b, parts, size) = around (running m) pos f.entry f.at in
      let range : drop pos (running m) ≡ f.entry ∷ b =
        ap₂ drop (sym size) parts ∙ drop-append a (f.entry ∷ b) in
      let whole : m ≡ manager_of (a ++ f.entry ∷ b) (waiting m) =
        manager_of-eq m v.bounded ∙ ap (λ u. manager_of u (waiting m)) parts in
      let found' : find_timer t (a ++ f.entry ∷ b) ≡ some (length a) =
        sym (ap (find_timer t) parts) ∙ found ∙ ap some (sym size) in
      subst (λ n. Disabled m t n (disable_timer heap m t)) size
        (subst (λ u. Disabled u t (length a) (disable_timer heap u t)) (sym whole)
          (disable_parts a b (waiting m) f.entry t found' f.of_timer
            (subst (IsHeap deadline) range ordered)))

  -- The timer in front, whose range is the whole heap.
  pub disable_front-IsValid :
      (m : Manager) (t : ℕ)
      → IsValid m
      → find_timer t (running m) ≡ some 0
      → IsValid (disable_timer heap m t)
  disable_front-IsValid m t v found =
      let d = disable_timer-Disabled m t 0 v found v.heap in
      record {
        bounded = d.bounded;
        heap = d.front refl;
        distinct = λ u. omega (arith, d.distinct u, v.distinct u);
      }

key_at-drop :
    (xs : List TimerEntry) (n i : ℕ) → key_at deadline (drop n xs) i ≡ key_at deadline xs (n + i)
unfolding key_at
key_at-drop xs zero i = rw add.zero refl
key_at-drop [] (suc n) i = refl
key_at-drop (x ∷ xs) (suc n) i = rw add.suc (key_at-drop xs n i)

-- Past the front, the range that `disable_timer` hands to pop_heap need not be a heap: here the entry
-- behind that of the timer has an earlier deadline.
pub disable_range_no_heap :
    (m : Manager) (pos : ℕ)
    → suc pos < length (running m)
    → key_at deadline (running m) (suc pos) < key_at deadline (running m) pos
    → ¬ IsHeap deadline (drop pos (running m))
disable_range_no_heap m pos inside earlier h =
    let edge = h 1 (omega arith) (omega (arith, inside, length-drop pos (running m))) in
    let at = key_at-drop (running m) pos in ground (arith, at 0, at 1, edge)
