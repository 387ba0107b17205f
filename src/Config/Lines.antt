-- ===== src/Config/Lines.antt =====
-- The lines of a configuration file and what RPC_util/config_read.cc reads from them.
use cpp_rpc.Prelude.{
  ℕ, ◌≡◌, refl, ap, ◌∙◌, Bool, true, false, ◌&&◌, some, List, [], ◌∷◌, ◌++◌, ◌>>=◌, if◌then◌else◌,
  map, arith,
}
use cpp_rpc.Assoc.{lookup, insert, lookup-insert}
use cpp_rpc.Config.{
  Str, str_key, same_str, is_space, is_word, is_value, span, skip, non_empty, equals_sign,
  match_line, search_line, read_lines, read_file, value,
}

unfoldable pub all : (ℕ → Bool) → Str → Bool
all p [] = true
all p (c ∷ s) = p c && all p s

-- no further character of the class
unfoldable pub stops : (ℕ → Bool) → Str → Bool
stops p [] = true
stops p (c ∷ s) = if p c then false else true

pub span_run :
    (p : ℕ → Bool) (run rest : Str)
    → all p run ≡ true
    → stops p rest ≡ true
    → span p (run ++ rest) ≡ (run, rest)
unfolding span all stops
span_run p [] [] a s = refl
span_run p [] (c ∷ rest) a s = ground arith
span_run p (c ∷ run) rest a s = ground (arith, span_run p run rest)

-- a line with an assignment, with the spaces in it and what follows the value
pub record Entry : Type 0 where
  pub before : Str
  pub key : Str
  pub middle : Str
  pub after : Str
  pub val : Str
  pub tail : Str

pub record IsEntry (e : Entry) : Type 0 where
  pub spaces : (all is_space e.before && (all is_space e.middle && all is_space e.after)) ≡ true
  pub key_some : (c : ℕ) × (s : Str) × (e.key ≡ c ∷ s)
  pub key_word : all is_word e.key ≡ true
  pub val_some : (c : ℕ) × (s : Str) × (e.val ≡ c ∷ s)
  pub val_value : all is_value e.val ≡ true
  pub ends : stops is_value e.tail ≡ true

unfoldable pub print : Entry → Str
print e = e.before ++ (e.key ++ (e.middle ++ (61 ∷ (e.after ++ (e.val ++ e.tail)))))

search_first : (s : Str) (kv : Str × Str) → match_line s ≡ some kv → search_line s ≡ some kv
unfolding search_line match_line non_empty span skip
search_first [] kv e = cc
search_first (c ∷ s) kv e = rw (search_line, e)

-- Spaces end where a key or a value begins, and a key where spaces or the sign do.
stops-word :
    (key rest : Str) (c : ℕ) (s : Str)
    → key ≡ c ∷ s
    → all is_word key ≡ true
    → stops is_space (key ++ rest) ≡ true
unfolding stops all is_space is_word
stops-word [] rest c s e a = cc
stops-word (d ∷ key) rest c s e a = ground arith

stops-value :
    (val rest : Str) (c : ℕ) (s : Str)
    → val ≡ c ∷ s
    → all is_value val ≡ true
    → stops is_space (val ++ rest) ≡ true
unfolding stops all is_space is_word is_value
stops-value [] rest c s e a = cc
stops-value (d ∷ val) rest c s e a = ground arith

stops-spaces :
    (middle rest : Str) → all is_space middle ≡ true → stops is_word (middle ++ (61 ∷ rest)) ≡ true
unfolding stops all is_space is_word
stops-spaces [] rest a = refl
stops-spaces (c ∷ middle) rest a = ground arith

pub non_empty_lem :
    (run rest : Str) (c : ℕ) (s : Str) → run ≡ c ∷ s → non_empty run rest ≡ some (run, rest)
unfolding non_empty
non_empty_lem [] rest c s e = cc
non_empty_lem (d ∷ run) rest c s e = refl

pub skip_lem :
    (run rest : Str)
    → all is_space run ≡ true
    → stops is_space rest ≡ true
    → skip (run ++ rest) ≡ rest
unfolding skip
skip_lem run rest a s = ap (λ r. r.1) (span_run is_space run rest a s)

stops-sign : (rest : Str) → stops is_space (61 ∷ rest) ≡ true
unfolding stops is_space
stops-sign rest = refl

match_line-print : (e : Entry) → IsEntry e → match_line (print e) ≡ some (e.key, e.val)
unfolding match_line print equals_sign
match_line-print e v =
    let (c, s, k) = v.key_some in
    let (d, t, l) = v.val_some in
    let value_tail = e.val ++ e.tail in
    let after_key = e.middle ++ (61 ∷ (e.after ++ value_tail)) in
    let s1 =
      skip_lem e.before (e.key ++ after_key) (ground (arith, v.spaces))
        (stops-word e.key after_key c s k v.key_word) in
    let s2 =
      span_run is_word e.key after_key v.key_word
        (stops-spaces e.middle (e.after ++ value_tail) (ground (arith, v.spaces))) in
    let s3 =
      skip_lem e.middle (61 ∷ (e.after ++ value_tail)) (ground (arith, v.spaces))
        (stops-sign (e.after ++ value_tail)) in
    let s4 =
      skip_lem e.after value_tail (ground (arith, v.spaces))
        (stops-value e.val e.tail d t l v.val_value) in
    let s5 = span_run is_value e.val e.tail v.val_value v.ends in
    rw (
      s1,
      s2,
      non_empty_lem e.key after_key c s k,
      ◌>>=◌,
      s3,
      s4,
      ◌>>=◌,
      s5,
      non_empty_lem e.val e.tail d t l,
      ◌>>=◌,
    )

pub last_value : Str → Str → List Entry → Str
last_value k v [] = v
last_value k v (e ∷ es) = last_value k (if same_str e.key k then e.val else v) es

pub data AllEntries : List Entry → Type 0 where
  none_left : AllEntries []
  entry : {e : Entry} {es : List Entry} → IsEntry e → AllEntries es → AllEntries (e ∷ es)

value-insert :
    (k j v : Str) (keys : List (Str × Str))
    → value (insert j v keys) k ≡ (if same_str j k then v else value keys k)
unfolding value
value-insert k j v keys = ground (arith, lookup-insert j k v keys)

read_lines-print :
    (es : List Entry) (keys : List (Str × Str)) (k : Str)
    → AllEntries es
    → value (read_lines (map print es) keys) k ≡ last_value k (value keys k) es
unfolding read_lines last_value
read_lines-print [] keys k none_left = refl
read_lines-print (e ∷ es) keys k (entry v vs) =
    rw (read_lines, search_first (print e) (e.key, e.val) (match_line-print e v))
      (read_lines-print es (insert e.key e.val keys) k vs
        ∙ ap (λ v. last_value k v es) (value-insert k e.key e.val keys))

-- A file of assignments, with any spaces in its lines and anything behind a value that is not taken for
-- a part of it, is read as written: a key has the value of the last line that sets it, and the empty
-- value if there is none.
pub read_file-print :
    (es : List Entry) (k : Str)
    → AllEntries es
    → value (read_file (some (map print es))) k ≡ last_value k [] es
unfolding read_file value lookup
read_file-print es k v = read_lines-print es [] k v
