-- ===== src/Stubs/Samples.antt =====
-- Two message classes, as lists of numbers: the text of a message's method stands at its end.
use Prim.Native.Nat.{compare, Ordering}
use Prim.Native.Char.{Char, char, code, nul, IsScalar}
use Prim.Native.String.{String}
use text.Mathlib.TextEquality.{Char-path}
use cpp_rpc.Prelude.{
  ℕ, ◌<◌, ◌≡◌, refl, ap, ap₂, inl, inr, List, [], ◌∷◌, arith, ltb, ltb→lt, ◌&&◌, Bool-cases, ◌⊎◌,
}
use cpp_rpc.Stubs.{Request, Response, Codec}

low_scalar : (n : ℕ) → n < 55296 → IsScalar n
low_scalar n h = let e : compare n 55296 ≡ Ordering.lt = ground arith in rw e tt

high_scalar : (n : ℕ) → 57343 < n → n < 1114112 → IsScalar n
high_scalar n h k =
    let e : compare n 55296 ≡ Ordering.gt = ground arith in
    let f : compare 57343 n ≡ Ordering.lt = ground arith in
    let g : compare n 1114112 ≡ Ordering.lt = ground arith in rw (e, f, g) tt

scalar_lem : (n : ℕ) → IsScalar n → (n < 55296) ⊎ ((57343 < n) × (n < 1114112))
scalar_lem n p = grind arith

pub scalar? : (n : ℕ) → Dec (IsScalar n)
scalar? n = elim (Bool-cases (ltb n 55296)) [
  | inl e ↦ yes (low_scalar n (ltb→lt n 55296 e))
  | inr e ↦ elim (Bool-cases (ltb 57343 n && ltb n 1114112)) [
    | inl f ↦ yes (high_scalar n (ground arith) (ground arith))
    | inr f ↦ no (λ p. let cases = scalar_lem n p in ground arith)
  ]
]

abbrev character : (n : ℕ) → Dec (IsScalar n) → Char
character n (yes p) = char n p
character n (no p) = nul

code-character : (n : ℕ) (d : Dec (IsScalar n)) → IsScalar n → code (character n d) ≡ n
code-character n (yes p) q = refl
code-character n (no p) q = absurd (p q)

abbrev scalar_of : (c : Char) → IsScalar (code c)
scalar_of (char n p) = p

abbrev codes : String → List ℕ
codes String.[] = []
codes (String.◌∷◌ c s) = code c ∷ codes s

abbrev string_of : List ℕ → String
string_of [] = String.[]
string_of (n ∷ ns) = String.◌∷◌ (character n (scalar? n)) (string_of ns)

pub string_of-codes : (s : String) → string_of (codes s) ≡ s
string_of-codes String.[] = refl
string_of-codes (String.◌∷◌ c s) =
    ap₂ String.◌∷◌
      (Char-path (character (code c) (scalar? (code c))) c
        (code-character (code c) (scalar? (code c)) (scalar_of c)))
      (string_of-codes s)

-- The messages of a function with two arguments, as a list of numbers.
abbrev pub put_request : Request (ℕ × ℕ) → List ℕ
put_request m = m.query_id ∷ m.args.0 ∷ m.args.1 ∷ codes m.method

abbrev pub get_request : List ℕ → Request (ℕ × ℕ)
get_request (q ∷ a ∷ b ∷ ns) = record { method = string_of ns; query_id = q; args = (a, b) }
get_request ns = record { method = String.[]; query_id = 0; args = (0, 0) }

abbrev pub request_class : Codec (Request (ℕ × ℕ))
request_class = record {
  serialize = put_request;
  merge = get_request;
  merge-serialize = λ m.
      ap (λ s. record { method = s; query_id = m.query_id; args = m.args })
        (string_of-codes m.method);
}

abbrev pub put_response : Response ℕ → List ℕ
put_response m = m.query_id ∷ m.result ∷ codes m.method

abbrev pub get_response : List ℕ → Response ℕ
get_response (q ∷ r ∷ ns) = record { method = string_of ns; query_id = q; result = r }
get_response ns = record { method = String.[]; query_id = 0; result = 0 }

abbrev pub response_class : Codec (Response ℕ)
response_class = record {
  serialize = put_response;
  merge = get_response;
  merge-serialize = λ m.
      ap (λ s. record { method = s; query_id = m.query_id; result = m.result })
        (string_of-codes m.method);
}
