-- ===== src/Heap/Order.antt =====
-- The heap order while one item is out of place.
use mathlib.Core.List.{Perm}
use mathlib.Core.List.Perm
use cpp_rpc.Prelude.{
  ℕ, zero, suc, ◌<◌, ◌≤◌, ◌≡◌, refl, List, [], ◌∷◌, ◌++◌, Option, none, some, length, get_elem?,
  take, arith, ◌==◌, if◌then◌else◌,
}
use cpp_rpc.Heap.{parent, key_at, IsHeap}
use cpp_rpc.Heap.Swap.{swap, get_elem?-swap, swap-perm}

module _ {A : Type 0} (key : A → ℕ) where
  abbrev key_of : Option A → ℕ
  key_of none = 0
  key_of (some x) = key x

  key_at-get_elem? : (xs : List A) (n : ℕ) → key_at key xs n ≡ key_of (get_elem? xs n)
  unfolding key_at
  key_at-get_elem? [] n = refl
  key_at-get_elem? (x ∷ xs) zero = refl
  key_at-get_elem? (x ∷ xs) (suc n) = key_at-get_elem? xs n

  pub key_at-swap :
      (xs : List A) (n j : ℕ)
      → n < length xs
      → j < length xs
      → (at : ℕ)
      → key_at key (swap xs n j) at ≡ (
          if j == at
          then key_at key xs n
          else if n == at
          then key_at key xs j
          else key_at key xs at)
  key_at-swap xs n j hi hj at = ground (
    arith,
    key_at-get_elem? (swap xs n j) at,
    key_at-get_elem? xs n,
    key_at-get_elem? xs j,
    key_at-get_elem? xs at,
    get_elem?-swap xs n j hi hj at,
  )

  pub key_at-append :
      (xs ys : List A) (n : ℕ) → n < length xs → key_at key (xs ++ ys) n ≡ key_at key xs n
  unfolding key_at
  key_at-append [] ys n h = absurd (omega arith)
  key_at-append (x ∷ xs) ys zero h = refl
  key_at-append (x ∷ xs) ys (suc n) h = key_at-append xs ys n (omega arith)

  pub key_at-take :
      (k : ℕ) (xs : List A) (n : ℕ) → n < k → key_at key (take k xs) n ≡ key_at key xs n
  unfolding key_at
  key_at-take zero xs n h = absurd (omega arith)
  key_at-take (suc k) [] n h = refl
  key_at-take (suc k) (x ∷ xs) zero h = refl
  key_at-take (suc k) (x ∷ xs) (suc n) h = key_at-take k xs n (omega arith)

  -- The edges from the parent of `n` to the children of `n` are in order.
  abbrev pub IsBridged : List A → ℕ → Type 0
  IsBridged xs n =
      (at : ℕ)
      → 0 < at
      → at < length xs
      → parent at ≡ n
      → 0 < n
      → key_at key xs (parent n) ≤ key_at key xs at

  pub record Sifted (xs ys : List A) : Type 0 where
    pub heap : IsHeap key ys
    pub same : Perm ys xs

  pub Sifted-swap :
      (xs : List A) (n j : ℕ) (ys : List A)
      → n < length xs
      → j < length xs
      → Sifted (swap xs n j) ys
      → Sifted xs ys
  Sifted-swap xs n j ys hi hj s = record {
    heap = s.heap;
    same = Perm.trans s.same (swap-perm xs n j hi hj);
  }

  root_least_below :
      (fuel : ℕ) (xs : List A) (n : ℕ)
      → IsHeap key xs
      → n < fuel
      → n < length xs
      → key_at key xs 0 ≤ key_at key xs n
  root_least_below zero xs n h enough within = absurd (omega arith)
  root_least_below (suc fuel) xs n h enough within =
      ground (arith, h n, root_least_below fuel xs (parent n) h)

  pub root_least :
      (xs : List A) (n : ℕ) → IsHeap key xs → n < length xs → key_at key xs 0 ≤ key_at key xs n
  root_least xs n h within = root_least_below (suc n) xs n h (omega arith) within
