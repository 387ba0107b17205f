-- ===== src/Config/Tests.antt =====
-- A file with two lines for one key, and a number with something behind it.
use cpp_rpc.Prelude.{◌≡◌, refl, some, [], ◌∷◌, map}
use cpp_rpc.Config.{
  value, read_file, is_space, is_word, is_value, search_line, match_line, span, skip, non_empty,
  equals_sign,
}
use cpp_rpc.Config.Text.{str}
use cpp_rpc.Config.Lines.{
  Entry, IsEntry, all, stops, print, last_value, none_left, entry, read_file-print,
}

-- " port = 12;x" and "port=99"
abbrev first : Entry
first = record {
  before = 32 ∷ [];
  key = 112 ∷ 111 ∷ 114 ∷ 116 ∷ [];
  middle = 32 ∷ [];
  after = 32 ∷ [];
  val = 49 ∷ 50 ∷ [];
  tail = 59 ∷ 120 ∷ [];
}

abbrev second : Entry
second = record {
  before = [];
  key = 112 ∷ 111 ∷ 114 ∷ 116 ∷ [];
  middle = [];
  after = [];
  val = 57 ∷ 57 ∷ [];
  tail = [];
}

first-IsEntry : IsEntry first
unfolding all stops is_space is_word is_value
first-IsEntry = record {
  spaces = refl;
  key_some = (112, 111 ∷ 114 ∷ 116 ∷ [], refl);
  key_word = refl;
  val_some = (49, 50 ∷ [], refl);
  val_value = refl;
  ends = refl;
}

second-IsEntry : IsEntry second
unfolding all stops is_space is_word is_value
second-IsEntry = record {
  spaces = refl;
  key_some = (112, 111 ∷ 114 ∷ 116 ∷ [], refl);
  key_word = refl;
  val_some = (57, 57 ∷ [], refl);
  val_value = refl;
  ends = refl;
}

print-first : print first ≡ str " port = 12;x"
unfolding print str
print-first = refl

-- a line of comment is read like any other
comment_line : search_line (str "# a=1") ≡ some (str "a", str "1")
unfolding search_line match_line span skip non_empty equals_sign is_space is_word is_value str
comment_line = refl

read_file-print_example :
    value (read_file (some (map print (first ∷ second ∷ [])))) (str "port")
    ≡ last_value (str "port") [] (first ∷ second ∷ [])
read_file-print_example =
    read_file-print (first ∷ second ∷ []) (str "port")
      (entry first-IsEntry (entry second-IsEntry none_left))
