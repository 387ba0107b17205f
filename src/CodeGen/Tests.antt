-- ===== src/CodeGen/Tests.antt =====
-- The line `int add(int a, long b);` and the theorems about it.
use cpp_rpc.Prelude.{
  Bool, false, if◌then◌else◌, ℕ, ◌≡◌, refl, true, Option, none, some, List, [], ◌∷◌, ◌++◌,
}
use cpp_rpc.Config.{Str, same_str, span, skip, non_empty, is_space}
use cpp_rpc.Config.Lines.{all, stops}
use cpp_rpc.Config.Text.{str}
use cpp_rpc.CodeGen.{
  is_letter, is_break, before_last, match_arg, search_arg, open_paren, match_def, search_def,
  parse_args, parse_func_def, parse_lines,
}
use cpp_rpc.CodeGen.Parse.{
  Words, IsWords, last_param, param, args_of, print_params, no_letters, no_paren, no_breaks,
}
use cpp_rpc.CodeGen.Defs.{Def, IsDef, print_def}
use cpp_rpc.CodeGen.Main.{main, print_lines, defs_of, main_generates, main_stops}
use cpp_rpc.CodeGen.Writers.{
  get_filename, after_slash, get_proto_filename, get_server_cc_filename, get_client_cc_filename,
  write_proto, to_string, digits_of, write_server_cc, server_stubs, includes, comma_names,
}

abbrev int_add : Words
int_add = record { type = 105 ∷ 110 ∷ 116 ∷ []; spaces = 32 ∷ []; name = 97 ∷ 100 ∷ 100 ∷ [] }

abbrev int_a : Words
int_a = record { type = 105 ∷ 110 ∷ 116 ∷ []; spaces = 32 ∷ []; name = 97 ∷ [] }

abbrev long_b : Words
long_b = record { type = 108 ∷ 111 ∷ 110 ∷ 103 ∷ []; spaces = 32 ∷ []; name = 98 ∷ [] }

abbrev add_def : Def
add_def = record {
  before = [];
  words = int_add;
  middle = [];
  params = ([], int_a) ∷ (44 ∷ 32 ∷ [], long_b) ∷ [];
  end = [];
  tail = 59 ∷ [];
}

int_add-IsWords : IsWords int_add
unfolding all is_letter is_space
int_add-IsWords = record {
  type_some = (105, 110 ∷ 116 ∷ [], refl);
  type_letters = refl;
  spaces_some = (32, [], refl);
  spaces_only = refl;
  name_some = (97, 100 ∷ 100 ∷ [], refl);
  name_letters = refl;
}

int_a-IsWords : IsWords int_a
unfolding all is_letter is_space
int_a-IsWords = record {
  type_some = (105, 110 ∷ 116 ∷ [], refl);
  type_letters = refl;
  spaces_some = (32, [], refl);
  spaces_only = refl;
  name_some = (97, [], refl);
  name_letters = refl;
}

long_b-IsWords : IsWords long_b
unfolding all is_letter is_space
long_b-IsWords = record {
  type_some = (108, 111 ∷ 110 ∷ 103 ∷ [], refl);
  type_letters = refl;
  spaces_some = (32, [], refl);
  spaces_only = refl;
  name_some = (98, [], refl);
  name_letters = refl;
}

add_def-IsDef : IsDef add_def
unfolding all stops is_letter is_space is_break print_params no_letters no_paren no_breaks
add_def-IsDef = record {
  before_spaces = refl;
  words_words = int_add-IsWords;
  middle_spaces = refl;
  params_params = param refl int_a-IsWords refl (param refl long_b-IsWords refl (last_param refl));
  one_line = refl;
  tail_free = refl;
}

print_def-add : print_def add_def ≡ str "int add(int a, long b);"
unfolding print_def print_params str
print_def-add = refl

-- the first word of a type of two words is lost
long_type_lost : parse_lines (str "long long f()" ∷ []) ≡ parse_lines (str "long f()" ∷ [])
unfolding parse_lines parse_func_def search_def match_def match_arg search_arg open_paren is_break
    before_last parse_args span skip non_empty is_letter is_space str
long_type_lost = refl

server_add :
    write_server_cc (str "add.h") (str "test.rpc") (
      record {
        return_arg = (str "int", str "result");
        name = str "add";
        func_args = args_of add_def.params;
      }
      ∷ [])
    ≡ str
        "#include \"RPC_server_template.h\"\n#include \"test.rpc.pb.h\"\n#include \"add.h\"\n\nRPC_SERVER2(result, add, a, b);\n"
unfolding write_server_cc server_stubs includes comma_names to_string digits_of args_of str
server_add = refl

abbrev definitions : List (Option Def)
definitions = none ∷ some add_def ∷ none ∷ []

abbrev defs_file : List ℕ → Option (List (List ℕ))
defs_file name = some (str "add.h" ∷ print_lines definitions)

-- all but the client's file open
abbrev opens : Str → Bool
opens name = if same_str name (str "out/test.rpc.client.cc") then false else true

main_generates_example : main opens defs_file (str "a/test.rpc" ∷ str "out" ∷ []) ≡ record {
  printed = [];
  files =
      (str "out/test.rpc.proto", write_proto (defs_of definitions))
      ∷ (
        str "out/test.rpc.server.cc",
        write_server_cc (str "add.h") (str "test.rpc") (defs_of definitions),
      )
      ∷ [];
}
unfolding str get_filename after_slash get_proto_filename get_server_cc_filename
    get_client_cc_filename same_str
main_generates_example =
    main_generates opens defs_file (str "a/test.rpc") (str "out") (str "add.h") definitions
      (add_def-IsDef, tt) refl

abbrev bad_file : List ℕ → Option (List (List ℕ))
bad_file name = some (str "add.h" ∷ print_lines definitions ++ ((120 ∷ []) ∷ str "int f()" ∷ []))

main_stops_example :
    main (λ name. true) bad_file (str "a/test.rpc" ∷ str "out" ∷ [])
    ≡ record { printed = str "find error around:" ++ (120 ∷ 10 ∷ []); files = [] }
unfolding parse_func_def search_def match_def match_arg span skip non_empty is_letter is_space
main_stops_example =
    main_stops (λ name. true) bad_file (str "a/test.rpc") (str "out") (str "add.h") definitions
      (add_def-IsDef, tt) 120 [] (str "int f()" ∷ []) refl refl
