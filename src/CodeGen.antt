-- ===== src/CodeGen.antt =====
-- CodeGen/code_gen.cc: the parser of function definitions. The writers are in CodeGen.Writers.
-- A character is its code. The two patterns are matchers: every class in them stops before the one that
-- comes next, but for `(.*)[\)]`, which takes all up to the last parenthesis of a text without line
-- terminators; a line may hold a carriage return. The loop over the parameters is a recursion on fuel, one round for every character.
pub mod Writers
pub mod Names
pub mod Parse
pub mod Defs
pub mod Main
mod Tests
use cpp_rpc.Prelude.{
  ℕ, zero, suc, Bool, true, false, ◌&&◌, ◌||◌, Option, none, some, List, [], ◌∷◌, ◌++◌, ◌>>=◌, ◌==◌,
  leb, if◌then◌else◌, length, ◌⊎◌, inl, inr,
}
use cpp_rpc.Config.{Str, span, skip, non_empty, is_space}
use cpp_rpc.Config.Text.{str}

-- `Arg`: the type and the name
abbrev pub Arg : Type 0
Arg = Str × Str

-- `[a-zA-Z]`
unfoldable pub is_letter : ℕ → Bool
is_letter c = (leb 97 c && leb c 122) || (leb 65 c && leb c 90)

-- a line terminator, which `.` does not match
unfoldable pub is_break : ℕ → Bool
is_break c = (c == 10) || (c == 13)

-- the text that `(.*)` matches in front of a `)`: up to the last one that no line terminator stands before
unfoldable pub before_last : Str → Option Str
before_last [] = none
before_last (c ∷ s) =
    let found : Option Str = elim (before_last s) [
      | some t ↦ some (c ∷ t)
      | none ↦ if c == 41 then some [] else none
    ] in
    if is_break c then none else found

-- `([a-zA-Z]+)[\s]+([a-zA-Z]+)` at the start of the text: the words, and what follows them
unfoldable pub match_arg : Str → Option (Arg × Str)
match_arg s = do
  (type, s1) ← non_empty (span is_letter s).0 (span is_letter s).1
  (spaces, s2) ← non_empty (span is_space s1).0 (span is_space s1).1
  (name, s3) ← non_empty (span is_letter s2).0 (span is_letter s2).1
  some ((type, name), s3)

unfoldable pub search_arg : Str → Option (Arg × Str)
search_arg [] = none
search_arg (c ∷ s) =
    let later = search_arg s in elim (match_arg (c ∷ s)) [ some r ↦ some r | none ↦ later ]

unfoldable pub open_paren : Str → Option Str
open_paren [] = none
open_paren (c ∷ s) = if c == 40 then some s else none

-- the first pattern at the start of the text: the type and the name, and the parameters
unfoldable pub match_def : Str → Option (Arg × Str)
match_def s = do
  (arg, s1) ← match_arg (skip s)
  s2 ← open_paren (skip s1)
  params ← before_last s2
  some (arg, params)

unfoldable pub search_def : Str → Option (Arg × Str)
search_def [] = none
search_def (c ∷ s) =
    let later = search_def s in elim (match_def (c ∷ s)) [ some r ↦ some r | none ↦ later ]

-- the loop over the parameters
unfoldable pub parse_args : ℕ → Str → List Arg
parse_args zero params = []
parse_args (suc fuel) params = elim (search_arg params) [
  | some (arg, rest) ↦ arg ∷ parse_args fuel rest
  | none ↦ []
]

-- what `parse_func_def` fills in
pub record FuncDef : Type 0 where
  pub return_arg : Arg
  pub name : Str
  pub func_args : List Arg

unfoldable pub parse_func_def : Str → Option FuncDef
parse_func_def func = do
  (arg, params) ← search_def func
  some (record {
    return_arg = (arg.0, str "result");
    name = arg.1;
    func_args = parse_args (length params) params;
  })

-- the loop of `main` over the lines: the first line that is no definition, or all that were read
unfoldable pub parse_lines : List Str → Str ⊎ List FuncDef
parse_lines [] = inr []
parse_lines ([] ∷ lines) = parse_lines lines
parse_lines ((c ∷ line) ∷ lines) =
    let rest = parse_lines lines in
    elim (parse_func_def (c ∷ line)) [
      | none ↦ inl (c ∷ line)
      | some d ↦ elim rest [ inl bad ↦ inl bad | inr ds ↦ inr (d ∷ ds) ]
    ]
