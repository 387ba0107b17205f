-- ===== src/Heap/Swap.antt =====
-- Two items of a list change places.
use mathlib.Core.Logic.{∥∥₁_elim}
use native.Mathlib.Nat.{ℕ_set}
use mathlib.Core.List.{Perm, Permᴰ}
use mathlib.Core.List.Perm
use cpp_rpc.Prelude.{
  ℕ, zero, suc, ◌<◌, ◌≡◌, refl, ap, ap₂, ◌∙◌, List, [], ◌∷◌, Option, none, some, length, get_elem?,
  set, arith, ◌==◌, if◌then◌else◌,
}

module _ {ℓ} {A : Type ℓ} where
  Permᴰ-length : {xs ys : List A} → Permᴰ xs ys → length xs ≡ length ys
  Permᴰ-length (Permᴰ.trans first second) = Permᴰ-length first ∙ Permᴰ-length second
  Permᴰ-length (Permᴰ.swap x y) = refl
  Permᴰ-length (Permᴰ.cons x same) = ap suc (Permᴰ-length same)
  Permᴰ-length Permᴰ.nil = refl

  pub length-perm : {xs ys : List A} → Perm xs ys → length xs ≡ length ys
  length-perm p = ∥∥₁_elim p (ℕ_set _ _) Permᴰ-length

  abbrev exchange : Option A → Option A → List A → ℕ → ℕ → List A
  exchange (some x) (some y) xs m n = set (set xs m y) n x
  exchange x y xs m n = xs

  unfoldable pub swap : List A → ℕ → ℕ → List A
  swap xs m n = exchange (get_elem? xs m) (get_elem? xs n) xs m n

  pub length-set : (xs : List A) (m : ℕ) (v : A) → length (set xs m v) ≡ length xs
  length-set [] m v = refl
  length-set (x ∷ xs) zero v = refl
  length-set (x ∷ xs) (suc m) v = ap suc (length-set xs m v)

  pub get_elem?-set :
      (xs : List A) (m n : ℕ) (v : A)
      → m < length xs
      → get_elem? (set xs m v) n ≡ (if m == n then some v else get_elem? xs n)
  get_elem?-set [] m n v h = absurd (omega arith)
  get_elem?-set (x ∷ xs) zero zero v h = refl
  get_elem?-set (x ∷ xs) (suc m) (suc n) v h = ground (arith, get_elem?-set xs m n v)
  get_elem?-set (x ∷ xs) m n v h = ground arith

  pub get_elem?_lt : (xs : List A) (m : ℕ) → m < length xs → (x : A) × (get_elem? xs m ≡ some x)
  get_elem?_lt [] m h = absurd (omega arith)
  get_elem?_lt (x ∷ xs) zero h = (x, refl)
  get_elem?_lt (x ∷ xs) (suc m) h = get_elem?_lt xs m (omega arith)

  pub set-perm :
      (xs : List A) (m : ℕ) (x v : A) → get_elem? xs m ≡ some x → Perm (x ∷ set xs m v) (v ∷ xs)
  set-perm [] m x v e = cc
  set-perm (y ∷ xs) zero x v e = let same : x ≡ y = cc in rw same (Perm.swap v y xs)
  set-perm (y ∷ xs) (suc m) x v e =
      let rest = Perm.cons y (set-perm xs m x v e) in
      Perm.trans (Perm.swap y x _) (Perm.trans rest (Perm.swap v y xs))

  length-exchange :
      (x y : Option A) (xs : List A) (m n : ℕ) → length (exchange x y xs m n) ≡ length xs
  length-exchange (some x) (some y) xs m n = simp length-set
  length-exchange (some x) none xs m n = refl
  length-exchange none y xs m n = refl

  pub length-swap : (xs : List A) (m n : ℕ) → length (swap xs m n) ≡ length xs
  unfolding swap
  length-swap xs m n = length-exchange (get_elem? xs m) (get_elem? xs n) xs m n

  pub swap-eq :
      (xs : List A) (m n : ℕ) (x y : A)
      → get_elem? xs m ≡ some x
      → get_elem? xs n ≡ some y
      → swap xs m n ≡ set (set xs m y) n x
  unfolding swap
  swap-eq xs m n x y e f = ap₂ (λ u v. exchange u v xs m n) e f

  module _ (xs : List A) (m n : ℕ) (hi : m < length xs) (hj : n < length xs) where
    pub get_elem?-swap :
        (c : ℕ)
        → get_elem? (swap xs m n) c
          ≡ (if n == c then get_elem? xs m else if m == c then get_elem? xs n else get_elem? xs c)
    get_elem?-swap c =
        let (x, e) = get_elem?_lt xs m hi in
        let (y, f) = get_elem?_lt xs n hj in
        rw (
          swap-eq xs m n x y e f,
          get_elem?-set (set xs m y) n c x (rw length-set hj),
          get_elem?-set xs m c y hi,
          e,
          f,
        )

    pub swap-perm : Perm (swap xs m n) xs
    swap-perm =
        let (x, e) = get_elem?_lt xs m hi in
        let (y, f) = get_elem?_lt xs n hj in
        let kept : get_elem? (set xs m y) n ≡ some y = ground (arith, get_elem?-set xs m n y) in
        let second = set-perm (set xs m y) n y x kept in
        rw (swap-eq xs m n x y e f) (Perm.cons_inv (Perm.trans second (set-perm xs m x y e)))
