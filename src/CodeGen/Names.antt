-- ===== src/CodeGen/Names.antt =====
-- File names and numbers in the output of CodeGen/code_gen.cc.
use cpp_rpc.Prelude.{
  ℕ, zero, suc, ◌+◌, ◌*◌, ◌-◌, ◌/◌, ◌%◌, ◌<◌, ◌≤◌, ◌≡◌, refl, ◌∙◌, Bool, true, false, inl, inr,
  Bool-cases, none, some, [], ◌∷◌, ◌++◌, ◌==◌, ltb, arith, if◌then◌else◌,
}
use cpp_rpc.Config.{Str, digits_value}
use cpp_rpc.CodeGen.Writers.{after_slash, get_filename, digits_of, to_string}

-- no `/` in the text
unfoldable pub no_slash : Str → Bool
no_slash [] = true
no_slash (c ∷ s) = if c == 47 then false else no_slash s

after_slash-none : (base : Str) → no_slash base ≡ true → after_slash base ≡ none
unfolding after_slash no_slash
after_slash-none [] e = refl
after_slash-none (c ∷ base) e =
    let n : (c == 47) ≡ false = ground arith in
    rw (after_slash, after_slash-none base (ground arith)) (rw n)

after_slash_lem :
    (dir base : Str) → no_slash base ≡ true → after_slash (dir ++ (47 ∷ base)) ≡ some base
unfolding after_slash
after_slash_lem [] base e = rw (after_slash, after_slash-none base e)
after_slash_lem (c ∷ dir) base e = rw (after_slash, after_slash_lem dir base e)

-- The name of a file is what follows the last `/` of its path, and all of a path that has none.
pub get_filename_lem :
    (dir base : Str)
    → no_slash base ≡ true
    → (get_filename (dir ++ (47 ∷ base)) ≡ base) × (get_filename base ≡ base)
unfolding get_filename
get_filename_lem dir base e =
    (rw (get_filename, after_slash_lem dir base e), rw (get_filename, after_slash-none base e))

digits_value-snoc :
    (n : ℕ) (s : Str) (c : ℕ) → digits_value n (s ++ c ∷ []) ≡ 10 * digits_value n s + (c - 48)
unfolding digits_value
digits_value-snoc n [] c = refl
digits_value-snoc n (d ∷ s) c = digits_value-snoc (10 * n + (d - 48)) s c

digits_of_lem : (fuel n : ℕ) → n < fuel → digits_value 0 (digits_of fuel n) ≡ n
unfolding digits_of digits_value
digits_of_lem zero n h = absurd (omega arith)
digits_of_lem (suc fuel) n h = elim (Bool-cases (ltb n 10)) [
  | inl e ↦ rw e (omega arith)
  | inr e ↦
      let big : 10 ≤ n = ground arith in
      rw e (
        digits_value-snoc 0 (digits_of fuel (n / 10)) (48 + n % 10)
        ∙ omega (arith, digits_of_lem fuel (n / 10) (omega (arith, big, h))))
]

-- The numbers in the generated text are decimal: read back, `to_string n` is `n`.
pub to_string_lem : (n : ℕ) → digits_value 0 (to_string n) ≡ n
unfolding to_string
to_string_lem n = digits_of_lem (suc n) n (omega arith)
