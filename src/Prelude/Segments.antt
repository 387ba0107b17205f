-- ===== src/Prelude/Segments.antt =====
-- Contiguous parts of a list: reading `n` items from an index on, and overwriting from an index on.
use Prim.Native.Nat.{ℕ, zero, suc, ◌+◌, ◌-◌, ◌≤◌}
use Prim.Native.Nat.add
use mathlib.Core.Path.{◌≡◌, refl, sym, ap, ◌∙◌}
use mathlib.Core.List.{List, [], ◌∷◌, ◌++◌}
use native.Mathlib.Omega.{arith}
use cpp_rpc.Prelude.Lists.{
  length, take, drop, length-take, length-drop, length-append, take-append, take_all,
}

module _ {ℓ} {A : Type ℓ} where
  -- `xs[i .. i + n)`
  unfoldable pub slice : List A → ℕ → ℕ → List A
  slice xs zero n = take n xs
  slice [] (suc i) n = []
  slice (x ∷ xs) (suc i) n = slice xs i n

  -- `xs` with `ys` written over it from index `i` on; used where `ys` fits
  unfoldable pub splice : List A → ℕ → List A → List A
  splice xs zero ys = ys ++ drop (length ys) xs
  splice [] (suc i) ys = []
  splice (x ∷ xs) (suc i) ys = x ∷ splice xs i ys

  drop-nil : (n : ℕ) → drop {A = A} n [] ≡ []
  drop-nil zero = refl
  drop-nil (suc n) = refl

  slice_nil : (i n : ℕ) → slice [] i n ≡ []
  unfolding slice
  slice_nil zero zero = refl
  slice_nil zero (suc n) = refl
  slice_nil (suc i) n = refl

  pub length-slice : (xs : List A) (i n : ℕ) → i + n ≤ length xs → length (slice xs i n) ≡ n
  unfolding slice
  length-slice xs zero n h = omega (arith, length-take n xs)
  length-slice [] (suc i) n h = absurd (omega arith)
  length-slice (x ∷ xs) (suc i) n h = length-slice xs i n (omega arith)

  pub length-splice :
      (xs : List A) (i : ℕ) (ys : List A)
      → i + length ys ≤ length xs
      → length (splice xs i ys) ≡ length xs
  unfolding splice
  length-splice xs zero ys h =
      omega (arith, length-append ys (drop (length ys) xs), length-drop (length ys) xs)
  length-splice [] (suc i) ys h = absurd (omega arith)
  length-splice (x ∷ xs) (suc i) ys h = ap suc (length-splice xs i ys (omega arith))

  pub slice_zero : (xs : List A) (i : ℕ) → slice xs i 0 ≡ []
  unfolding slice
  slice_zero xs zero = refl
  slice_zero [] (suc i) = refl
  slice_zero (x ∷ xs) (suc i) = slice_zero xs i

  pub slice_add :
      (xs : List A) (i n m : ℕ) → slice xs i (n + m) ≡ slice xs i n ++ slice xs (i + n) m
  unfolding slice
  slice_add xs zero zero m = ground arith
  slice_add [] zero (suc n) m = rw (add.suc, add.zero) (sym (slice_nil (suc n) m))
  slice_add (x ∷ xs) zero (suc n) m =
      rw (add.suc, add.zero) (ap (◌∷◌ x) (rw add.zero at (slice_add xs zero n m)))
  slice_add [] (suc i) n m = sym (slice_nil (suc i + n) m)
  slice_add (x ∷ xs) (suc i) n m = rw add.suc (slice_add xs i n m)

  pub slice-splice_before :
      (xs : List A) (t : ℕ) (ys : List A) (i n : ℕ)
      → i + n ≤ t
      → slice (splice xs t ys) i n ≡ slice xs i n
  unfolding slice splice
  slice-splice_before xs zero ys zero zero h = refl
  slice-splice_before xs zero ys zero (suc n) h = absurd (omega arith)
  slice-splice_before xs zero ys (suc i) n h = absurd (omega arith)
  slice-splice_before [] (suc t) ys i n h = refl
  slice-splice_before (x ∷ xs) (suc t) ys zero zero h = refl
  slice-splice_before (x ∷ xs) (suc t) ys zero (suc n) h =
      ap (◌∷◌ x) (slice-splice_before xs t ys zero n (omega arith))
  slice-splice_before (x ∷ xs) (suc t) ys (suc i) n h =
      slice-splice_before xs t ys i n (omega arith)

  pub slice-splice_at :
      (xs : List A) (t : ℕ) (ys : List A) (n : ℕ)
      → t ≤ length xs
      → length ys ≡ n
      → slice (splice xs t ys) t n ≡ ys
  unfolding slice splice
  slice-splice_at xs zero ys n h e = rw (← e) (take-append ys (drop (length ys) xs))
  slice-splice_at [] (suc t) ys n h e = absurd (omega arith)
  slice-splice_at (x ∷ xs) (suc t) ys n h e = slice-splice_at xs t ys n (omega arith) e

  pub slice-splice_after :
      (xs : List A) (t : ℕ) (ys : List A) (i n : ℕ)
      → t + length ys ≤ i
      → slice (splice xs t ys) i n ≡ slice xs i n
  unfolding slice splice
  slice-splice_after xs zero [] i n h = refl
  slice-splice_after xs zero (y ∷ ys) zero n h = absurd (omega arith)
  slice-splice_after [] zero (y ∷ ys) (suc i) n h =
      rw drop-nil at (slice-splice_after [] zero ys i n (omega arith)) ∙ slice_nil i n
  slice-splice_after (x ∷ xs) zero (y ∷ ys) (suc i) n h =
      slice-splice_after xs zero ys i n (omega arith)
  slice-splice_after [] (suc t) ys i n h = refl
  slice-splice_after (x ∷ xs) (suc t) ys zero n h = absurd (omega arith)
  slice-splice_after (x ∷ xs) (suc t) ys (suc i) n h = slice-splice_after xs t ys i n (omega arith)

  pub slice_whole : (xs : List A) → slice xs 0 (length xs) ≡ xs
  unfolding slice
  slice_whole xs = take_all (length xs) xs (omega arith)

  pub splice_whole : (xs ys : List A) → splice xs 0 ys ≡ ys ++ drop (length ys) xs
  unfolding splice
  splice_whole xs ys = refl

  -- Two parts of one list, cut at `n` items.
  pub slice_cut :
      (xs : List A) (i n k : ℕ) → n ≤ k → slice xs i k ≡ slice xs i n ++ slice xs (i + n) (k - n)
  slice_cut xs i n k h =
      let e : k ≡ n + (k - n) = omega arith in ap (slice xs i) e ∙ slice_add xs i n (k - n)

  -- Writing two blocks one after the other writes their concatenation.
  pub splice_twice :
      (xs ys zs : List A)
      → length ys + length zs ≤ length xs
      → splice (splice xs 0 ys) (length ys) zs ≡ splice xs 0 (ys ++ zs)
  unfolding splice
  splice_twice xs [] zs h = refl
  splice_twice [] (y ∷ ys) zs h = absurd (omega arith)
  splice_twice (x ∷ xs) (y ∷ ys) zs h = ap (◌∷◌ y) (splice_twice xs ys zs (omega arith))

  slice_take : (xs : List A) (n k : ℕ) → k ≤ n → slice (slice xs 0 n) 0 k ≡ slice xs 0 k
  unfolding slice
  slice_take xs n zero h = refl
  slice_take xs zero (suc k) h = absurd (omega arith)
  slice_take [] (suc n) (suc k) h = refl
  slice_take (x ∷ xs) (suc n) (suc k) h = ap (◌∷◌ x) (slice_take xs n k (omega arith))

  -- A part of a part that starts at the front.
  pub slice-slice : (xs : List A) (n i k : ℕ) → i + k ≤ n → slice (slice xs 0 n) i k ≡ slice xs i k
  unfolding slice
  slice-slice xs n zero k h = slice_take xs n k (omega arith)
  slice-slice xs zero (suc i) k h = absurd (omega arith)
  slice-slice [] (suc n) (suc i) k h = refl
  slice-slice (x ∷ xs) (suc n) (suc i) k h = slice-slice xs n i k (omega arith)

  pub split_at :
      (xs : List A) (n : ℕ) → n ≤ length xs → xs ≡ slice xs 0 n ++ slice xs n (length xs - n)
  split_at xs n h =
      let whole = slice_whole xs in
      let cut = slice_cut xs 0 n (length xs) h in ground (arith, whole, cut)
