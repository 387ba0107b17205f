-- ===== src/Config.antt =====
-- RPC_util/config_read.cc, and the settings of RPC_server/server_service_config.cc and
-- RPC_client/client_service_config.cc.
-- A character is its code, a file the list of its lines, or `none` where it does not open. The pattern
-- of `read_file` is a matcher: no character class in it overlaps the one that comes next, so the
-- first way to match a run is the only one, and the search tries each start from the left.
pub mod Text
pub mod Lines
pub mod Settings
pub mod ClientSettings
mod Tests
use cpp_rpc.Prelude.{
  ℕ, zero, suc, ◌+◌, ◌-◌, ◌*◌, ◌^◌, ◌≡◌, ◌↔◌, refl, arith, Bool, true, false, ◌&&◌, ◌||◌, Option,
  none, some, List, [], ◌∷◌, ◌++◌, ◌>>=◌, ◌==◌, ltb, leb, if◌then◌else◌,
}
use cpp_rpc.Assoc.{Key, lookup, insert}

abbrev pub Str : Type 0
Str = List ℕ

unfoldable pub same_str : Str → Str → Bool
same_str [] [] = true
same_str (c ∷ s) (d ∷ t) = c == d && same_str s t
same_str s t = false

pub same_str_iff : (s t : Str) → (same_str s t ≡ true) ↔ (s ≡ t)
unfolding same_str
same_str_iff [] [] = ground arith
same_str_iff [] (d ∷ t) = ground arith
same_str_iff (c ∷ s) [] = ground arith
same_str_iff (c ∷ s) (d ∷ t) = ground (arith, same_str_iff s t)

instance abbrev pub str_key : Key Str
str_key = record { same = same_str; same_iff = same_str_iff }

-- `\s`, `[a-zA-Z0-9_]` and `[a-zA-Z0-9_\.]`
unfoldable pub is_space : ℕ → Bool
is_space c = c == 32 || (leb 9 c && leb c 13)

unfoldable pub is_word : ℕ → Bool
is_word c =
    (leb 97 c && leb c 122) || ((leb 65 c && leb c 90) || ((leb 48 c && leb c 57) || (c == 95)))

unfoldable pub is_value : ℕ → Bool
is_value c = is_word c || (c == 46)

-- the longest run at the front, and what follows it
unfoldable pub span : (ℕ → Bool) → Str → Str × Str
span p [] = ([], [])
span p (c ∷ s) = if p c then (let (run, rest) = span p s in (c ∷ run, rest)) else ([], c ∷ s)

unfoldable pub skip : Str → Str
skip s = (span is_space s).1

unfoldable pub non_empty : Str → Str → Option (Str × Str)
non_empty [] rest = none
non_empty (c ∷ run) rest = some (c ∷ run, rest)

unfoldable pub equals_sign : Str → Option Str
equals_sign [] = none
equals_sign (c ∷ s) = if c == 61 then some s else none

-- a match at the start of the text: the key and the value
unfoldable pub match_line : Str → Option (Str × Str)
match_line s = do
  let (key, s1) = span is_word (skip s)
  (key', s2) ← non_empty key s1
  s3 ← equals_sign (skip s2)
  let (value, s4) = span is_value (skip s3)
  (value', s5) ← non_empty value s4
  some (key', value')

-- `regex_search`
unfoldable pub search_line : Str → Option (Str × Str)
search_line [] = none
search_line (c ∷ s) =
    let rest = search_line s in elim (match_line (c ∷ s)) [ some kv ↦ some kv | none ↦ rest ]

unfoldable pub read_lines : List Str → List (Str × Str) → List (Str × Str)
read_lines [] keys = keys
read_lines (line ∷ lines) keys = elim (search_line line) [
  | some (key, value) ↦ read_lines lines (insert key value keys)
  | none ↦ read_lines lines keys
]

-- `Config::read_file`, on what the constructor starts from
unfoldable pub read_file : Option (List Str) → List (Str × Str)
read_file none = []
read_file (some lines) = read_lines lines []

-- `Config::value`
unfoldable pub value : List (Str × Str) → Str → Str
value keys key = elim (lookup key keys) [ some v ↦ v | none ↦ [] ]

-- `std::stoi` on text without spaces and signs, which is all that a value can be: `none` throws
unfoldable pub is_digit : ℕ → Bool
is_digit c = leb 48 c && leb c 57

unfoldable pub digits_value : ℕ → Str → ℕ
digits_value n [] = n
digits_value n (c ∷ s) = digits_value (10 * n + (c - 48)) s

unfoldable pub stoi : Str → Option ℕ
stoi s = do
  (digits, rest) ← non_empty (span is_digit s).0 (span is_digit s).1
  let n = digits_value 0 digits
  if ltb n (2 ^ 31) then some n else none
