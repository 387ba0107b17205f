-- ===== src/Heap/Up.antt =====
-- The way up of an item that is too low in the tree.
use mathlib.Core.Logic.{◌≢◌}
use mathlib.Core.List.Perm
use cpp_rpc.Prelude.{
  ℕ, zero, suc, ◌<◌, ◌≤◌, List, length, arith, ltb, ◌&&◌, if◌then◌else◌, Bool-cases, inl, inr,
}
use cpp_rpc.Heap.{parent, key_at}
use cpp_rpc.Heap.Swap.{swap, length-swap}
use cpp_rpc.Heap.Order.{key_at-swap, IsBridged, Sifted, Sifted-swap}

module _ {A : Type 0} (key : A → ℕ) where
  unfoldable pub sift_up : ℕ → List A → ℕ → List A
  sift_up zero xs low = xs
  sift_up (suc fuel) xs low =
      let rest = sift_up fuel (swap xs low (parent low)) (parent low) in
      if ltb 0 low && ltb (key_at key xs low) (key_at key xs (parent low)) then rest else xs

  -- Only the edge above `low` may be out of order.
  pub record UpInv (xs : List A) (low : ℕ) : Type 0 where
    pub inside : low < length xs
    pub settled :
        (n : ℕ) → 0 < n → n < length xs → n ≢ low → key_at key xs (parent n) ≤ key_at key xs n
    pub bridged : IsBridged key xs low

  swap-UpInv :
      (xs : List A) (low : ℕ)
      → UpInv xs low
      → 0 < low
      → key_at key xs low < key_at key xs (parent low)
      → UpInv (swap xs low (parent low)) (parent low)
  swap-UpInv xs low v pos below =
      let above : parent low < length xs = omega (arith, v.inside) in
      let at = key_at-swap key xs low (parent low) v.inside above in
      let size = length-swap xs low (parent low) in
      record {
        inside = omega (arith, size);
        settled = λ n pos within apart.
            ground (arith, size, at n, at (parent n), v.settled n, v.settled low, v.bridged n);
        bridged = λ n pos within apart inner. ground (
          arith,
          size,
          at n,
          at (parent n),
          at (parent (parent low)),
          v.settled n,
          v.settled (parent low),
          v.bridged n,
        );
      }

  pub sift_up_restores :
      (fuel : ℕ) (xs : List A) (low : ℕ)
      → low < fuel
      → UpInv xs low
      → Sifted key xs (sift_up fuel xs low)
  unfolding sift_up
  sift_up_restores zero xs low enough v = absurd (omega arith)
  sift_up_restores (suc fuel) xs low enough v =
      let above : parent low < length xs = omega (arith, v.inside) in
      elim (Bool-cases (ltb 0 low && ltb (key_at key xs low) (key_at key xs (parent low)))) [
        | inl e ↦ rw e (
            Sifted-swap key xs low (parent low) _ v.inside above (
              sift_up_restores fuel (swap xs low (parent low)) (parent low) (ground arith)
                (swap-UpInv xs low v (ground arith) (ground arith))))
        | inr e ↦
            rw e (record { heap = λ n pos within. ground (arith, v.settled n); same = Perm.rfl })
      ]
