-- ===== src/CodeGen/Defs.antt =====
-- A line of a definition file and what `parse_func_def` of CodeGen/code_gen.cc makes of it.
use cpp_rpc.Prelude.{ℕ, ◌≡◌, refl, ap, true, some, List, [], ◌∷◌, ◌++◌, ◌>>=◌, arith, length}
use cpp_rpc.Config.{Str, skip, span, non_empty, is_space}
use cpp_rpc.Config.Lines.{all, stops, skip_lem}
use cpp_rpc.Config.Text.{str}
use cpp_rpc.CodeGen.{Arg, is_letter, match_arg, open_paren, match_def, search_def, parse_func_def}
use cpp_rpc.CodeGen.Parse.{
  Words, IsWords, arg_of, letter-not-space, match_arg-print, print_params, args_of, IsParams,
  parse_args-print, no_paren, no_breaks, before_last_lem,
}

-- a definition with its spaces, and what stands behind the parameters and behind it
pub record Def : Type 0 where
  pub before : Str
  pub words : Words
  pub middle : Str
  pub params : List (Str × Words)
  pub end : Str
  pub tail : Str

pub record IsDef (d : Def) : Type 0 where
  pub before_spaces : all is_space d.before ≡ true
  pub words_words : IsWords d.words
  pub middle_spaces : all is_space d.middle ≡ true
  pub params_params : IsParams d.end d.params
  pub one_line : no_breaks (print_params d.params d.end) ≡ true
  pub tail_free : no_paren d.tail ≡ true

unfoldable pub print_def : Def → Str
print_def d =
    d.before
    ++ (d.words.type
        ++ (d.words.spaces
            ++ (d.words.name
                ++ (d.middle ++ (40 ∷ (print_params d.params d.end ++ (41 ∷ d.tail)))))))

append-some :
    (xs ys : Str) (c : ℕ) (t : Str) → ys ≡ c ∷ t → (d : ℕ) × (s : Str) × (xs ++ ys ≡ d ∷ s)
append-some [] ys c t e = (c, t, e)
append-some (x ∷ xs) ys c t e = (x, xs ++ ys, refl)

-- A definition is no empty line.
pub print_def-some : (d : Def) → IsDef d → (c : ℕ) × (s : Str) × (print_def d ≡ c ∷ s)
unfolding print_def
print_def-some d v =
    let (c, t, e) = v.words_words.type_some in
    let params = print_params d.params d.end ++ (41 ∷ d.tail) in
    let rest = d.words.spaces ++ (d.words.name ++ (d.middle ++ (40 ∷ params))) in
    append-some d.before (d.words.type ++ rest) c (t ++ rest) (ap (λ xs. xs ++ rest) e)

stops-paren :
    (middle rest : Str)
    → all is_space middle ≡ true
    → stops is_letter (middle ++ (40 ∷ rest)) ≡ true
unfolding stops all is_space is_letter
stops-paren [] rest e = refl
stops-paren (c ∷ middle) rest e = ground arith

space-paren : (rest : Str) → stops is_space (40 ∷ rest) ≡ true
unfolding stops is_space
space-paren rest = refl

match_def-print :
    (d : Def)
    → IsDef d
    → match_def (print_def d) ≡ some (arg_of d.words, print_params d.params d.end)
unfolding match_def print_def open_paren
match_def-print d v =
    let (c, t, e) = v.words_words.type_some in
    let params = print_params d.params d.end in
    let inner = params ++ (41 ∷ d.tail) in
    let opened = d.middle ++ (40 ∷ inner) in
    let words = d.words.type ++ (d.words.spaces ++ (d.words.name ++ opened)) in
    let s1 = skip_lem d.before words v.before_spaces (
      letter-not-space d.words.type (d.words.spaces ++ (d.words.name ++ opened)) c t e
        v.words_words.type_letters) in
    let s2 =
      match_arg-print d.words opened v.words_words (stops-paren d.middle inner v.middle_spaces) in
    let s3 = skip_lem d.middle (40 ∷ inner) v.middle_spaces (space-paren inner) in
    rw (s1, s2, ◌>>=◌, s3, ◌>>=◌, before_last_lem params d.tail v.one_line v.tail_free, ◌>>=◌)

search_def_first : (s : Str) (r : Arg × Str) → match_def s ≡ some r → search_def s ≡ some r
unfolding search_def match_def match_arg skip span non_empty
search_def_first [] r e = cc
search_def_first (c ∷ s) r e = rw (search_def, e)

-- A definition is read as it is written, whatever spaces are in it: its type, its name and all its
-- parameters in their order, each a type and a name of letters with spaces between them, and with
-- anything but letters between the parameters.
pub parse_func_def-print :
    (d : Def)
    → IsDef d
    → parse_func_def (print_def d)
      ≡ some (record {
        return_arg = (d.words.type, str "result");
        name = d.words.name;
        func_args = args_of d.params;
      })
unfolding parse_func_def
parse_func_def-print d v =
    let params = print_params d.params d.end in
    rw (search_def_first (print_def d) (arg_of d.words, params) (match_def-print d v), ◌>>=◌)
      (ap
        (λ args. some (record {
          return_arg = (d.words.type, str "result");
          name = d.words.name;
          func_args = args;
        }))
        (parse_args-print (length params) d.params d.end v.params_params (omega arith)))
