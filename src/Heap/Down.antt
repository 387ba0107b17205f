-- ===== src/Heap/Down.antt =====
-- The way down of an item that is too high in the tree.
use mathlib.Core.Logic.{◌≢◌, ◌⊎◌}
use mathlib.Core.List.Perm
use native.Mathlib.Decide.{ℕ_discrete}
use cpp_rpc.Prelude.{
  ℕ, zero, suc, ◌+◌, ◌-◌, ◌*◌, ◌<◌, ◌≤◌, ◌≡◌, List, length, arith, ltb, ◌&&◌, if◌then◌else◌,
  Bool-cases, inl, inr,
}
use cpp_rpc.Heap.{parent, key_at}
use cpp_rpc.Heap.Swap.{swap, length-swap}
use cpp_rpc.Heap.Order.{key_at-swap, IsBridged, Sifted, Sifted-swap}

module _ {A : Type 0} (key : A → ℕ) where
  unfoldable pub smaller_child : List A → ℕ → ℕ
  smaller_child xs top =
      let l = 2 * top + 1 in
      if ltb (suc l) (length xs) && ltb (key_at key xs (suc l)) (key_at key xs l) then suc l else l

  unfoldable pub sift_down : ℕ → List A → ℕ → List A
  sift_down zero xs top = xs
  sift_down (suc fuel) xs top =
      let low = smaller_child xs top in
      let rest = sift_down fuel (swap xs top low) low in
      if ltb (2 * top + 1) (length xs) && ltb (key_at key xs low) (key_at key xs top)
      then rest
      else xs

  -- Only the edges below `top` may be out of order.
  pub record DownInv (xs : List A) (top : ℕ) : Type 0 where
    pub settled :
        (n : ℕ)
        → 0 < n
        → n < length xs
        → parent n ≢ top
        → key_at key xs (parent n) ≤ key_at key xs n
    pub bridged : IsBridged key xs top

  record IsSmallerChild (xs : List A) (top low : ℕ) : Type 0 where
    within : low < length xs
    child : (low ≡ 2 * top + 1) ⊎ (low ≡ 2 * top + 2)
    least : (n : ℕ) → 0 < n → n < length xs → parent n ≡ top → key_at key xs low ≤ key_at key xs n

  smaller_child_lem :
      (xs : List A) (top : ℕ)
      → 2 * top + 1 < length xs
      → IsSmallerChild xs top (smaller_child xs top)
  unfolding smaller_child
  smaller_child_lem xs top h = grind arith

  swap-DownInv :
      (xs : List A) (top low : ℕ)
      → DownInv xs top
      → IsSmallerChild xs top low
      → key_at key xs low < key_at key xs top
      → DownInv (swap xs top low) low
  swap-DownInv xs top low v s below =
      let size = length-swap xs top low in
      let at = key_at-swap key xs top low (omega (arith, s.within, s.child)) s.within in
      record {
        settled = λ n pos within apart.
            ground (arith, size, at n, at (parent n), v.settled n, v.bridged low, s.least n);
        bridged = λ n pos within apart t. ground (arith, size, at n, at (parent low), v.settled n);
      }

  pub sift_down_restores :
      (fuel : ℕ) (xs : List A) (top : ℕ)
      → length xs - top < fuel
      → DownInv xs top
      → Sifted key xs (sift_down fuel xs top)
  unfolding sift_down
  sift_down_restores zero xs top enough v = absurd (omega arith)
  sift_down_restores (suc fuel) xs top enough v =
      let low = smaller_child xs top in
      elim (Bool-cases
        (ltb (2 * top + 1) (length xs) && ltb (key_at key xs low) (key_at key xs top))) [
          | inl e ↦
              let s = smaller_child_lem xs top (ground arith) in
              rw e (
                Sifted-swap key xs top low _ (omega (arith, s.within, s.child)) s.within (
                  sift_down_restores fuel (swap xs top low) low
                    (omega (arith, length-swap xs top low, s.within, s.child))
                    (swap-DownInv xs top low v s (ground arith))))
          | inr e ↦ rw e (record {
            heap = λ n pos within. elim (ℕ_discrete (parent n) top) [
              | yes enough ↦
                  let s = smaller_child_lem xs top (omega (arith, pos, within, enough)) in
                  let low = s.least n pos within enough in rw enough (ground (arith, e, low))
              | no enough ↦ v.settled n pos within enough
            ];
            same = Perm.rfl;
          })
        ]
