-- ===== src/CodeGen/Parse.antt =====
-- Function definitions as they are written, and what `parse_func_def` of CodeGen/code_gen.cc reads.
use cpp_rpc.Prelude.{
  ℕ, zero, suc, ◌≤◌, ◌<◌, ◌≡◌, refl, ap, ◌∙◌, Bool, true, false, none, some, List, [], ◌∷◌, ◌++◌,
  ◌>>=◌, ◌==◌, if◌then◌else◌, arith, length, length-append, Bool-cases, inl, inr,
}
use cpp_rpc.Config.{Str, span, non_empty, is_space}
use cpp_rpc.Config.Lines.{all, stops, span_run, non_empty_lem}
use cpp_rpc.CodeGen.{Arg, is_letter, is_break, before_last, match_arg, search_arg, parse_args}

-- two words with spaces between them
pub record Words : Type 0 where
  pub type : Str
  pub spaces : Str
  pub name : Str

pub record IsWords (w : Words) : Type 0 where
  pub type_some : (c : ℕ) × (s : Str) × (w.type ≡ c ∷ s)
  pub type_letters : all is_letter w.type ≡ true
  pub spaces_some : (c : ℕ) × (s : Str) × (w.spaces ≡ c ∷ s)
  pub spaces_only : all is_space w.spaces ≡ true
  pub name_some : (c : ℕ) × (s : Str) × (w.name ≡ c ∷ s)
  pub name_letters : all is_letter w.name ≡ true

unfoldable pub print_words : Words → Str
print_words w = w.type ++ (w.spaces ++ w.name)

abbrev pub arg_of : Words → Arg
arg_of w = (w.type, w.name)

pub letter-not-space :
    (word rest : Str) (c : ℕ) (s : Str)
    → word ≡ c ∷ s
    → all is_letter word ≡ true
    → stops is_space (word ++ rest) ≡ true
unfolding stops all is_space is_letter
letter-not-space [] rest c s e a = cc
letter-not-space (d ∷ word) rest c s e a = ground arith

space-not-letter :
    (spaces rest : Str) (c : ℕ) (s : Str)
    → spaces ≡ c ∷ s
    → all is_space spaces ≡ true
    → stops is_letter (spaces ++ rest) ≡ true
unfolding stops all is_space is_letter
space-not-letter [] rest c s e a = cc
space-not-letter (d ∷ spaces) rest c s e a = ground arith

pub match_arg-print :
    (w : Words) (rest : Str)
    → IsWords w
    → stops is_letter rest ≡ true
    → match_arg (w.type ++ (w.spaces ++ (w.name ++ rest))) ≡ some (arg_of w, rest)
unfolding match_arg
match_arg-print w rest v s =
    let (a, t, ea) = v.type_some in
    let (b, u, eb) = v.spaces_some in
    let (c, n, ec) = v.name_some in
    let s1 =
      span_run is_letter w.type (w.spaces ++ (w.name ++ rest)) v.type_letters
        (space-not-letter w.spaces (w.name ++ rest) b u eb v.spaces_only) in
    let s2 =
      span_run is_space w.spaces (w.name ++ rest) v.spaces_only
        (letter-not-space w.name rest c n ec v.name_letters) in
    let s3 = span_run is_letter w.name rest v.name_letters s in
    rw (
      s1,
      non_empty_lem w.type (w.spaces ++ (w.name ++ rest)) a t ea,
      ◌>>=◌,
      s2,
      non_empty_lem w.spaces (w.name ++ rest) b u eb,
      ◌>>=◌,
      s3,
      non_empty_lem w.name rest c n ec,
      ◌>>=◌,
    )

unfoldable pub no_letters : Str → Bool
no_letters [] = true
no_letters (c ∷ s) = if is_letter c then false else no_letters s

match_arg-none : (c : ℕ) (s : Str) → is_letter c ≡ false → match_arg (c ∷ s) ≡ none
unfolding match_arg span non_empty
match_arg-none c s e = rw (e, ◌>>=◌)

-- Nothing matches before the first letter.
search_arg-skip :
    (sep rest : Str) → no_letters sep ≡ true → search_arg (sep ++ rest) ≡ search_arg rest
unfolding search_arg no_letters
search_arg-skip [] rest e = refl
search_arg-skip (c ∷ sep) rest e =
    let n : is_letter c ≡ false = ground arith in
    rw (search_arg, match_arg-none c (sep ++ rest) n) (search_arg-skip sep rest (ground arith))

search_arg-none : (sep : Str) → no_letters sep ≡ true → search_arg sep ≡ none
unfolding search_arg no_letters
search_arg-none [] e = refl
search_arg-none (c ∷ sep) e =
    let n : is_letter c ≡ false = ground arith in
    rw (search_arg, match_arg-none c sep n) (search_arg-none sep (ground arith))

search_arg_first : (s : Str) (r : Arg × Str) → match_arg s ≡ some r → search_arg s ≡ some r
unfolding search_arg match_arg non_empty span
search_arg_first [] r e = cc
search_arg_first (c ∷ s) r e = rw (search_arg, e)

-- parameters, each with what stands in front of it, and what stands behind them
unfoldable pub print_params : List (Str × Words) → Str → Str
print_params [] end = end
print_params ((sep, w) ∷ ps) end = sep ++ (w.type ++ (w.spaces ++ (w.name ++ print_params ps end)))

unfoldable pub args_of : List (Str × Words) → List Arg
args_of [] = []
args_of ((sep, w) ∷ ps) = arg_of w ∷ args_of ps

pub data IsParams (end : Str) : List (Str × Words) → Type 0 where
  last_param : no_letters end ≡ true → IsParams end []
  param :
      {sep : Str} {w : Words} {ps : List (Str × Words)}
      → no_letters sep ≡ true
      → IsWords w
      → stops is_letter (print_params ps end) ≡ true
      → IsParams end ps
      → IsParams end ((sep, w) ∷ ps)

length-print_params :
    (sep : Str) (w : Words) (rest : Str)
    → IsWords w
    → length rest < length (sep ++ (w.type ++ (w.spaces ++ (w.name ++ rest))))
length-print_params sep w rest v =
    let (c, t, e) = v.type_some in
    omega (
      arith,
      length-append sep (w.type ++ (w.spaces ++ (w.name ++ rest))),
      length-append w.type (w.spaces ++ (w.name ++ rest)),
      length-append w.spaces (w.name ++ rest),
      length-append w.name rest,
      ap length e,
    )

pub parse_args-print :
    (fuel : ℕ) (ps : List (Str × Words)) (end : Str)
    → IsParams end ps
    → length (print_params ps end) ≤ fuel
    → parse_args fuel (print_params ps end) ≡ args_of ps
unfolding parse_args print_params args_of
parse_args-print zero [] end (last_param e) l = refl
parse_args-print (suc fuel) [] end (last_param e) l = rw (parse_args, search_arg-none end e)
parse_args-print zero ((sep, w) ∷ ps) end (param e v s q) l =
    absurd (omega (arith, l, length-print_params sep w (print_params ps end) v))
parse_args-print (suc fuel) ((sep, w) ∷ ps) end (param e v s q) l =
    let rest = print_params ps end in
    let found =
      search_arg-skip sep (w.type ++ (w.spaces ++ (w.name ++ rest))) e
      ∙ search_arg_first (w.type ++ (w.spaces ++ (w.name ++ rest))) (arg_of w, rest)
          (match_arg-print w rest v s) in
    rw (parse_args, found)
      (ap (λ args. arg_of w ∷ args)
        (parse_args-print fuel ps end q (omega (arith, l, length-print_params sep w rest v))))

-- no `)` in the text
unfoldable pub no_paren : Str → Bool
no_paren [] = true
no_paren (c ∷ s) = if c == 41 then false else no_paren s

before_last-none : (tail : Str) → no_paren tail ≡ true → before_last tail ≡ none
unfolding before_last no_paren
before_last-none [] e = refl
before_last-none (c ∷ tail) e =
    let n : (c == 41) ≡ false = ground arith in
    elim (Bool-cases (is_break c)) [
      | inl b ↦ rw (before_last, b)
      | inr b ↦ rw (before_last, b) (rw (before_last-none tail (ground arith)) (rw n))
    ]

-- no line terminator in the text
unfoldable pub no_breaks : Str → Bool
no_breaks [] = true
no_breaks (c ∷ s) = if is_break c then false else no_breaks s

pub before_last_lem :
    (s tail : Str)
    → no_breaks s ≡ true
    → no_paren tail ≡ true
    → before_last (s ++ (41 ∷ tail)) ≡ some s
unfolding before_last no_breaks is_break
before_last_lem [] tail l e = rw (before_last-none tail e) refl
before_last_lem (c ∷ s) tail l e =
    let n : is_break c ≡ false = ground arith in
    rw (before_last, n) (rw (before_last_lem s tail (ground arith) e) refl)
