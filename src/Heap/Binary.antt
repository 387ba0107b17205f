-- ===== src/Heap/Binary.antt =====
-- The binary heap that fulfils the contract.
use mathlib.Core.List.{Perm, perm_middle}
use mathlib.Core.List.Perm
use cpp_rpc.Prelude.{
  ℕ, zero, suc, ◌+◌, ◌-◌, ◌≡◌, refl, ap, List, [], ◌∷◌, ◌++◌, some, length, get_elem?, take,
  length-append, append-nil, arith,
}
use cpp_rpc.Heap.{parent, IsHeap, Popped, Pushed, HeapOps}
use cpp_rpc.Heap.Swap.{swap, length-swap, get_elem?-swap, swap-perm, length-perm}
use cpp_rpc.Heap.Order.{key_at-swap, key_at-append, key_at-take}
use cpp_rpc.Heap.Up.{sift_up, UpInv, sift_up_restores}
use cpp_rpc.Heap.Down.{sift_down, DownInv, sift_down_restores}

module _ {A : Type 0} where
  pub append_item-perm : (a : List A) (x : A) → Perm (a ++ x ∷ []) (x ∷ a)
  append_item-perm a x = rw (append-nil a) at (perm_middle {a = x} a [])

  take-append_last :
      (n : ℕ) (a : List A) (x : A)
      → length a ≡ suc n
      → get_elem? a n ≡ some x
      → take n a ++ x ∷ [] ≡ a
  take-append_last n [] x h e = absurd (omega arith)
  take-append_last zero (y ∷ []) x h e = ground arith
  take-append_last zero (y ∷ z ∷ a) x h e = absurd (omega arith)
  take-append_last (suc n) (y ∷ a) x h e = ap (◌∷◌ y) (take-append_last n a x (omega arith) e)

module _ {A : Type 0} (key : A → ℕ) where
  unfoldable pub binary_push : List A → List A
  binary_push a = sift_up key (length a) a (length a - 1)

  -- the front item behind the last one, and the others in order again
  unfoldable pub binary_pop : List A → List A
  binary_pop [] = []
  binary_pop (x ∷ a) =
      let n = length a in sift_down key (suc n) (take n (swap (x ∷ a) 0 n)) 0 ++ x ∷ []

  pub binary_push_lem :
      (a : List A) (x : A) → IsHeap key a → Pushed key x a (binary_push (a ++ x ∷ []))
  unfolding binary_push
  binary_push_lem a x h =
      let b = a ++ x ∷ [] in
      let size : length b ≡ length a + 1 = length-append a (x ∷ []) in
      let start : UpInv key b (length b - 1) = record {
        inside = omega (arith, size);
        settled = λ c p q r. ground (
          arith,
          size,
          h c,
          key_at-append key a (x ∷ []) c,
          key_at-append key a (x ∷ []) (parent c),
        );
        bridged = λ c p q r. absurd (omega (arith, size, p, q, r));
      } in
      let s = sift_up_restores key (length b) b (length b - 1) (omega (arith, size)) start in
      record { heap = s.heap; same = Perm.trans s.same (append_item-perm a x) }

  module _ (x : A) (a : List A) where
    abbrev cut : List A
    cut = take (length a) (swap (x ∷ a) 0 (length a))

    cut-eq : cut ++ x ∷ [] ≡ swap (x ∷ a) 0 (length a)
    cut-eq =
        let last : get_elem? (swap (x ∷ a) 0 (length a)) (length a) ≡ some x =
          ground
            (arith, get_elem?-swap (x ∷ a) 0 (length a) (omega arith) (omega arith) (length a)) in
        take-append_last (length a) _ x (length-swap (x ∷ a) 0 (length a)) last

    cut-perm : Perm cut a
    cut-perm =
        let whole : Perm (cut ++ x ∷ []) (x ∷ a) =
          rw cut-eq (swap-perm (x ∷ a) 0 (length a) (omega arith) (omega arith)) in
        Perm.cons_inv (Perm.trans (Perm.symm (append_item-perm cut x)) whole)

    cut-DownInv : IsHeap key (x ∷ a) → DownInv key cut 0
    cut-DownInv h =
        let n = length a in
        let at = key_at-swap key (x ∷ a) 0 n (omega arith) (omega arith) in
        let kept = key_at-take key n (swap (x ∷ a) 0 n) in
        let shorter = length-perm cut-perm in
        record {
          settled =
              λ c p q r. ground (arith, h c, at c, at (parent c), kept c, kept (parent c), shorter);
          bridged = λ c p q r t. absurd (omega (arith, t));
        }

    pub binary_pop_lem : IsHeap key (x ∷ a) → Popped key x a (binary_pop (x ∷ a))
    unfolding binary_pop
    binary_pop_lem h =
        let s =
          sift_down_restores key (suc (length a)) cut 0 (omega (arith, length-perm cut-perm))
            (cut-DownInv h) in
        record {
          others = sift_down key (suc (length a)) cut 0;
          split = refl;
          heap = s.heap;
          same = Perm.trans s.same cut-perm;
        }

  abbrev pub binary_heap : HeapOps key
  binary_heap = record {
    push_heap = binary_push;
    pop_heap = binary_pop;
    push_lem = binary_push_lem;
    pop_lem = binary_pop_lem;
  }
