-- ===== src/Heap.antt =====
-- The contract of std::push_heap and std::pop_heap, which RPC_util/TimerManager.cc calls on a range of
-- a vector. A heap is a list in which no item has a smaller key than its parent, at (c - 1) / 2; the
-- source's TimerComp compares with `>`, so that the least item is in front.
pub mod Swap
pub mod Order
pub mod Up
pub mod Down
pub mod Binary
use mathlib.Core.List.{Perm}
use cpp_rpc.Prelude.{ℕ, zero, suc, ◌-◌, ◌/◌, ◌<◌, ◌≤◌, ◌≡◌, List, [], ◌∷◌, ◌++◌, length}

abbrev pub parent : ℕ → ℕ
parent c = (c - 1) / 2

module _ {A : Type 0} (key : A → ℕ) where
  -- the key at an index; 0 past the end
  unfoldable pub key_at : List A → ℕ → ℕ
  key_at [] i = 0
  key_at (x ∷ a) zero = key x
  key_at (x ∷ a) (suc i) = key_at a i

  abbrev pub IsHeap : List A → Type 0
  IsHeap a = (c : ℕ) → 0 < c → c < length a → key_at a (parent c) ≤ key_at a c

  -- What pop_heap leaves of a heap with `x` in front: the others, a heap, and then `x`.
  pub record Popped (x : A) (a r : List A) : Type 0 where
    pub others : List A
    pub split : r ≡ others ++ x ∷ []
    pub heap : IsHeap others
    pub same : Perm others a

  -- What push_heap makes of a heap and one item behind it.
  pub record Pushed (x : A) (a r : List A) : Type 0 where
    pub heap : IsHeap r
    pub same : Perm r (x ∷ a)

  pub record HeapOps : Type 0 where
    pub push_heap : List A → List A
    pub pop_heap : List A → List A
    pub push_lem : (a : List A) (x : A) → IsHeap a → Pushed x a (push_heap (a ++ x ∷ []))
    pub pop_lem : (x : A) (a : List A) → IsHeap (x ∷ a) → Popped x a (pop_heap (x ∷ a))
