-- ===== src/Timers/Entries.antt =====
-- The entries of the manager: how many a timer has, and ranges of the vector.
use mathlib.Core.Logic.{∥∥₁_elim}
use native.Mathlib.Nat.{ℕ_set}
use native.Mathlib.Decide.{ℕ_discrete}
use mathlib.Core.List.{Perm, Permᴰ}
use mathlib.Core.List.Perm
use Prim.Native.Nat.add
use cpp_rpc.Prelude.{
  ℕ, zero, suc, ◌+◌, ◌<◌, ◌≡◌, refl, sym, ap, ap₂, ◌∙◌, none, some, List, [], ◌∷◌, ◌++◌, length,
  get_elem?, set, take-append, drop-append, ◌==◌, arith, if◌then◌else◌, ◌>>=◌, Bool-cases, inl, inr,
  >>=-eq-some,
}
use cpp_rpc.Heap.Swap.{swap, swap-perm, swap-eq}
use cpp_rpc.Timers.{TimerEntry, on_range, find_timer}

-- the entries of a timer
unfoldable pub count : ℕ → List TimerEntry → ℕ
count t [] = 0
count t (e ∷ es) = (if e.timer == t then 1 else 0) + count t es

pub count-append : (t : ℕ) (xs ys : List TimerEntry) → count t (xs ++ ys) ≡ count t xs + count t ys
unfolding count
count-append t [] ys = omega arith
count-append t (x ∷ xs) ys = ground (arith, count-append t xs ys)

count-Permᴰ : (t : ℕ) {a b : List TimerEntry} → Permᴰ a b → count t a ≡ count t b
unfolding count
count-Permᴰ t Permᴰ.nil = refl
count-Permᴰ t (Permᴰ.cons x p) = ground (arith, count-Permᴰ t p)
count-Permᴰ t (Permᴰ.swap x y) = ground arith
count-Permᴰ t (Permᴰ.trans p q) = count-Permᴰ t p ∙ count-Permᴰ t q

pub count-perm : (t : ℕ) {a b : List TimerEntry} → Perm a b → count t a ≡ count t b
count-perm t p = ∥∥₁_elim p (ℕ_set _ _) (count-Permᴰ t)

pub find_timer-none : (t : ℕ) (es : List TimerEntry) → count t es ≡ 0 → find_timer t es ≡ none
unfolding count find_timer
find_timer-none t [] h = refl
find_timer-none t (e ∷ es) h = ground (arith, find_timer-none t es)

pub find_timer-some :
    (t : ℕ) (es : List TimerEntry) → 0 < count t es → (j : ℕ) × (find_timer t es ≡ some j)
unfolding count find_timer
find_timer-some t [] h = absurd (omega arith)
find_timer-some t (e ∷ es) h = elim (Bool-cases (e.timer == t)) [
  | inl b ↦ (0, ground arith)
  | inr b ↦ let (j, q) = find_timer-some t es (ground arith) in (suc j, ground arith)
]

pub find_timer-none-count : (t : ℕ) (es : List TimerEntry) → find_timer t es ≡ none → count t es ≡ 0
find_timer-none-count t es h = elim (ℕ_discrete (count t es) 0) [
  | yes e ↦ e
  | no n ↦ let (j, there) = find_timer-some t es (omega (arith, n)) in absurd cc
]

pub find_timer-count :
    (t : ℕ) (es : List TimerEntry) (j : ℕ) → find_timer t es ≡ some j → 0 < count t es
find_timer-count t es j h = elim (ℕ_discrete (count t es) 0) [
  | yes e ↦ let absent = find_timer-none t es e in cc
  | no n ↦ omega (arith, n)
]

-- what the search found
pub record Found (t : ℕ) (es : List TimerEntry) (j : ℕ) : Type 0 where
  pub entry : TimerEntry
  pub at : get_elem? es j ≡ some entry
  pub of_timer : entry.timer ≡ t
  pub inside : j < length es

pub find_timer-Found :
    (t : ℕ) (es : List TimerEntry) (j : ℕ) → find_timer t es ≡ some j → Found t es j
unfolding find_timer
find_timer-Found t [] j h = cc
find_timer-Found t (e ∷ es) j h = elim (Bool-cases (e.timer == t)) [
  | inl b ↦
      let here : j ≡ 0 = ground arith in
      record { entry = e; at = ground arith; of_timer = ground arith; inside = omega (arith, here) }
  | inr b ↦
      let later : (find_timer t es >>= λ i. some (suc i)) ≡ some j = ground arith in
      let (i, q, k) = >>=-eq-some (find_timer t es) (λ i. some (suc i)) later in
      let f = find_timer-Found t es i q in
      let next : j ≡ suc i = ground arith in
      record {
        entry = f.entry;
        at = rw next f.at;
        of_timer = f.of_timer;
        inside = omega (arith, next, f.inside);
      }
]

module _ {ℓ} {A : Type ℓ} where
  pub set-append : (p r : List A) (j : ℕ) (v : A) → set (p ++ r) (length p + j) v ≡ p ++ set r j v
  set-append [] r j v = rw add.zero refl
  set-append (x ∷ p) r j v = rw add.suc (ap (◌∷◌ x) (set-append p r j v))

  get_elem?_inside : (a : List A) (i : ℕ) (x : A) → get_elem? a i ≡ some x → i < length a
  get_elem?_inside [] i x e = cc
  get_elem?_inside (y ∷ a) zero x e = omega arith
  get_elem?_inside (y ∷ a) (suc i) x e = omega (arith, get_elem?_inside a i x e)

  get_elem?-append : (p r : List A) (j : ℕ) → get_elem? (p ++ r) (length p + j) ≡ get_elem? r j
  get_elem?-append [] r j = rw add.zero refl
  get_elem?-append (x ∷ p) r j = rw add.suc (get_elem?-append p r j)

  pub swap-append :
      (p r : List A) (i j : ℕ) (x y : A)
      → get_elem? r i ≡ some x
      → get_elem? r j ≡ some y
      → swap (p ++ r) (length p + i) (length p + j) ≡ p ++ swap r i j
  swap-append p r i j x y e f =
      swap-eq (p ++ r) (length p + i) (length p + j) x y (get_elem?-append p r i ∙ e)
        (get_elem?-append p r j ∙ f)
      ∙ ap (λ u. set u (length p + j) x) (set-append p r i y)
      ∙ set-append p (set r i y) j x
      ∙ ap (◌++◌ p) (sym (swap-eq r i j x y e f))

  -- An item that changes places with the first.
  pub swap_front :
      (s : List A) (j : ℕ) (w : A)
      → get_elem? s j ≡ some w
      → (rest : List A) × (swap s 0 j ≡ w ∷ rest) × Perm (w ∷ rest) s
  swap_front [] j w e = cc
  swap_front (x ∷ s) zero w e =
      let same : x ≡ w = cc in
      (s, swap-eq (x ∷ s) 0 0 x w refl e ∙ ap (λ u. u ∷ s) same, rw same Perm.rfl)
  swap_front (x ∷ s) (suc j) w e =
      let front : swap (x ∷ s) 0 (suc j) ≡ w ∷ set s j x = swap-eq (x ∷ s) 0 (suc j) x w refl e in
      let inside = get_elem?_inside (x ∷ s) (suc j) w e in
      (set s j x, front, rw front at (swap-perm (x ∷ s) 0 (suc j) (omega arith) inside))

pub on_range_prefix :
    (f : List TimerEntry → List TimerEntry) (b c : List TimerEntry)
    → on_range f 0 (length b) (b ++ c) ≡ f b ++ c
unfolding on_range
on_range_prefix f b c = ap₂ (λ u v. f u ++ v) (take-append b c) (drop-append b c)
