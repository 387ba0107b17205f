-- ===== src/CodeGen/Main.antt =====
-- `main` of CodeGen/code_gen.cc: from the arguments and the definition file to the generated files.
-- What a file holds is the list of its lines, or `none` where it does not open; whether a file opens to
-- be written is a parameter too.
use cpp_rpc.Prelude.{
  arith, ℕ, ap, ◌∙◌, sym, append-nil, ◌≡◌, refl, Bool, ◌⊎◌, inl, inr, Option, none, some, List, [],
  ◌∷◌, ◌++◌, if◌then◌else◌,
}
use cpp_rpc.Config.{Str}
use cpp_rpc.Config.Text.{str}
use cpp_rpc.CodeGen.{FuncDef, parse_func_def, parse_lines}
use cpp_rpc.CodeGen.Parse.{args_of}
use cpp_rpc.CodeGen.Defs.{Def, IsDef, print_def, parse_func_def-print, print_def-some}
use cpp_rpc.CodeGen.Writers.{
  endl, generate, get_proto_filename, get_server_cc_filename, get_client_cc_filename, get_filename,
  write_proto, write_server_cc, write_client_cc,
}

-- what is on the screen, and the files that were written
pub record Output : Type 0 where
  pub printed : Str
  pub files : List (Str × Str)

unfoldable pub print_help : Output
print_help = record { printed = str "Usage:code_gen rpc_def_file dst_dir" ++ endl; files = [] }

-- the files that open
unfoldable pub write_files : (Str → Bool) → List (Str × Str) → List (Str × Str)
write_files opens [] = []
write_files opens ((name, text) ∷ files) =
    let rest = write_files opens files in if opens name then (name, text) ∷ rest else rest

module _ (opens : Str → Bool) where
  -- behind the loop over the lines
  unfoldable pub finish : Str → Str → Str → Str ⊎ List FuncDef → Output
  finish src_file dst_dir head_file (inl func) = record {
    printed = str "find error around:" ++ (func ++ endl);
    files = [];
  }
  finish src_file dst_dir head_file (inr ds) = record {
    printed = [];
    files = write_files opens (generate src_file dst_dir head_file ds);
  }

  -- The first line is the head file; a file without lines has an empty one.
  unfoldable pub generate_from : Str → Str → Option (List Str) → Output
  generate_from src_file dst_dir none = record { printed = []; files = [] }
  generate_from src_file dst_dir (some []) = finish src_file dst_dir [] (inr [])
  generate_from src_file dst_dir (some (head_file ∷ lines)) =
      finish src_file dst_dir head_file (parse_lines lines)

  -- `main` on the arguments behind the program's name
  unfoldable pub main : (Str → Option (List Str)) → List Str → Output
  main read (src_file ∷ dst_dir ∷ []) = generate_from src_file dst_dir (read src_file)
  main read args = print_help

-- the lines of a definition file: empty ones, and definitions
pub print_lines : List (Option Def) → List Str
print_lines [] = []
print_lines (none ∷ ls) = [] ∷ print_lines ls
print_lines (some d ∷ ls) = print_def d ∷ print_lines ls

abbrev pub AllDefs : List (Option Def) → Type 0
AllDefs [] = Unit {0}
AllDefs (none ∷ ls) = AllDefs ls
AllDefs (some d ∷ ls) = IsDef d × AllDefs ls

-- what the code generator knows of the definitions
abbrev pub func_of : Def → FuncDef
func_of d = record {
  return_arg = (d.words.type, str "result");
  name = d.words.name;
  func_args = args_of d.params;
}

unfoldable pub defs_of : List (Option Def) → List FuncDef
defs_of [] = []
defs_of (none ∷ ls) = defs_of ls
defs_of (some d ∷ ls) = func_of d ∷ defs_of ls

-- the definitions in front of what the rest of the file gives
after_defs : List FuncDef → Str ⊎ List FuncDef → Str ⊎ List FuncDef
after_defs ds (inl func) = inl func
after_defs ds (inr es) = inr (ds ++ es)

after_defs-more :
    (d : FuncDef) (ds : List FuncDef) (r : Str ⊎ List FuncDef)
    → after_defs (d ∷ []) (after_defs ds r) ≡ after_defs (d ∷ ds) r
unfolding after_defs
after_defs-more d ds (inl func) = refl
after_defs-more d ds (inr es) = refl

after_defs-none : (r : Str ⊎ List FuncDef) → after_defs [] r ≡ r
unfolding after_defs
after_defs-none (inl func) = refl
after_defs-none (inr es) = refl

parse_lines-one :
    (c : ℕ) (s : Str) (d : FuncDef) (lines : List Str) (r : Str ⊎ List FuncDef)
    → parse_func_def (c ∷ s) ≡ some d
    → parse_lines lines ≡ r
    → parse_lines ((c ∷ s) ∷ lines) ≡ after_defs (d ∷ []) r
unfolding parse_lines after_defs
parse_lines-one c s d lines (inl bad) p q = rw (parse_lines, p, q) refl
parse_lines-one c s d lines (inr ds) p q = rw (parse_lines, p, q) refl

parse_lines-def :
    (line : Str) (d : FuncDef) (lines : List Str)
    → (c : ℕ) × (s : Str) × (line ≡ c ∷ s)
    → parse_func_def line ≡ some d
    → parse_lines (line ∷ lines) ≡ after_defs (d ∷ []) (parse_lines lines)
parse_lines-def line d lines (c, s, e) p =
    ap (λ l. parse_lines (l ∷ lines)) e
    ∙ parse_lines-one c s d lines (parse_lines lines) (ap parse_func_def (sym e) ∙ p) refl

parse_lines-print :
    (ls : List (Option Def)) (more : List Str)
    → AllDefs ls
    → parse_lines (print_lines ls ++ more) ≡ after_defs (defs_of ls) (parse_lines more)
unfolding print_lines defs_of parse_lines
parse_lines-print [] more v = sym (after_defs-none (parse_lines more))
parse_lines-print (none ∷ ls) more v = parse_lines-print ls more v
parse_lines-print (some d ∷ ls) more (v, vs) =
    parse_lines-def (print_def d) (func_of d) (print_lines ls ++ more) (print_def-some d v)
      (parse_func_def-print d v)
    ∙ ap (after_defs (func_of d ∷ [])) (parse_lines-print ls more vs)
    ∙ after_defs-more (func_of d) (defs_of ls) (parse_lines more)

module _ (opens : Str → Bool) (read : Str → Option (List Str)) (src_file dst_dir head_file : Str)
    (ls : List (Option Def)) (defs : AllDefs ls) where
  abbrev pub when_opens : Str → Str → List (Str × Str)
  when_opens name text = if opens name then (name, text) ∷ [] else []

  files_lem :
      (a b c : Str) (x y z : Str)
      → ◌≡◌ {A = Output}
          (record { printed = []; files = write_files opens ((a, x) ∷ (b, y) ∷ (c, z) ∷ []) })
          (record { printed = []; files = when_opens a x ++ (when_opens b y ++ when_opens c z) })
  unfolding write_files
  files_lem a b c x y z = ground arith

  -- A definition file whose first line names the head file, and whose other lines are empty or definitions,
  -- with whatever spaces outside the parameters and whatever but letters and line terminators between
  -- them: `main` prints nothing, and writes three files, for the protocol, the server and the client,
  -- each with the text for all the definitions in their order, under the names that the definition
  -- file's name gives, but for those that do not open.
  pub main_generates :
      read src_file ≡ some (head_file ∷ print_lines ls)
      → main opens read (src_file ∷ dst_dir ∷ []) ≡ record {
        printed = [];
        files =
            when_opens (get_proto_filename src_file dst_dir) (write_proto (defs_of ls))
            ++ (when_opens
                  (get_server_cc_filename src_file dst_dir)
                  (write_server_cc head_file (get_filename src_file) (defs_of ls))
                ++ when_opens
                    (get_client_cc_filename src_file dst_dir)
                    (write_client_cc head_file (get_filename src_file) (defs_of ls)));
      }
  unfolding main generate_from finish after_defs parse_lines write_files generate
  main_generates e =
      let parsed : parse_lines (print_lines ls) ≡ inr (defs_of ls) =
        ap parse_lines (sym (append-nil (print_lines ls)))
        ∙ parse_lines-print ls [] defs
        ∙ ap inr (append-nil (defs_of ls)) in
      rw (e, parsed)
        (files_lem (get_proto_filename src_file dst_dir) (get_server_cc_filename src_file dst_dir)
          (get_client_cc_filename src_file dst_dir) _ _ _)

  -- A line that is neither empty nor a definition, behind any number of good ones: `main` names it and
  -- writes no file, whatever follows.
  pub main_stops :
      (c : ℕ) (func : Str) (more : List Str)
      → read src_file ≡ some (head_file ∷ print_lines ls ++ ((c ∷ func) ∷ more))
      → parse_func_def (c ∷ func) ≡ none
      → main opens read (src_file ∷ dst_dir ∷ [])
        ≡ record { printed = str "find error around:" ++ ((c ∷ func) ++ endl); files = [] }
  unfolding main generate_from finish after_defs parse_lines
  main_stops c func more e bad =
      let parsed : parse_lines (print_lines ls ++ ((c ∷ func) ∷ more)) ≡ inl (c ∷ func) =
        parse_lines-print ls ((c ∷ func) ∷ more) defs ∙ rw (parse_lines, bad) refl in
      rw (e, parsed) refl
