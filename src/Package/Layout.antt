-- ===== src/Package/Layout.antt =====
-- `Header` of RPC_util/buffer.h as the bytes that it has in memory, and the byte-order functions of
-- RPC_util/buffer.cc. The layout is two `int`s of four bytes, the lowest byte first.
use Prim.Native.Nat.{bit_and, bit_or}
use cpp_rpc.Prelude.{ℕ, ◌+◌, ◌*◌, ◌/◌, ◌%◌, ◌^◌, ◌<◌, ◌≡◌, refl, List, [], ◌∷◌, ◌++◌, arith, length}

pub record Header : Type 0 where
  pub magic : ℕ
  pub length : ℕ

-- `MAGIC`
abbrev pub magic_number : ℕ
magic_number = 0xa2b3c4d5

unfoldable pub int_bytes : ℕ → List ℕ
int_bytes w = w % 256 ∷ w / 256 % 256 ∷ w / 2 ^ 16 % 256 ∷ w / 2 ^ 24 % 256 ∷ []

-- An entry of a block is a byte, and counts as its remainder by 256.
unfoldable pub int_of_bytes : ℕ → ℕ → ℕ → ℕ → ℕ
int_of_bytes a b c d = a % 256 + 256 * (b % 256) + 2 ^ 16 * (c % 256) + 2 ^ 24 * (d % 256)

unfoldable pub header_bytes : Header → List ℕ
header_bytes h = int_bytes h.magic ++ int_bytes h.length

-- `head` as the eight bytes at its address say; a shorter block does not occur
unfoldable pub decode_header : List ℕ → Header
decode_header (a ∷ b ∷ c ∷ d ∷ e ∷ f ∷ g ∷ h ∷ _) = record {
  magic = int_of_bytes a b c d;
  length = int_of_bytes e f g h;
}
decode_header _ = record { magic = 0; length = 0 }

-- `change_endian`: the four bytes in the other order
pub change_endian : ℕ → ℕ
change_endian n =
    bit_or
      (bit_or (bit_or (bit_and (n / 2 ^ 24) 0xFF) (bit_and (n / 2 ^ 8) 0xFF00))
        (bit_and (n * 2 ^ 8 % 2 ^ 32) 0xFF0000))
      (bit_and (n * 2 ^ 24 % 2 ^ 32) 0xFF000000)

-- With `SMALL_END` defined, as it is, neither function changes its argument.
abbrev pub local_to_small_end : ℕ → ℕ
local_to_small_end n = n

abbrev pub small_end_to_local : ℕ → ℕ
small_end_to_local n = n

pub length-header_bytes : (h : Header) → length (header_bytes h) ≡ 8
unfolding header_bytes int_bytes
length-header_bytes h = refl

-- The bytes of a header give the header back, whatever follows them.
pub decode_header-header_bytes :
    (h : Header) (rest : List ℕ)
    → h.magic < 2 ^ 32
    → h.length < 2 ^ 32
    → decode_header (header_bytes h ++ rest) ≡ h
unfolding decode_header header_bytes int_bytes int_of_bytes
decode_header-header_bytes h rest m l = ground arith

-- Whatever bytes there are, the length is a word.
pub decode_header_word : (bytes : List ℕ) → (decode_header bytes).length < 2 ^ 32
unfolding decode_header int_of_bytes
decode_header_word [] = omega arith
decode_header_word (a ∷ []) = omega arith
decode_header_word (a ∷ b ∷ []) = omega arith
decode_header_word (a ∷ b ∷ c ∷ []) = omega arith
decode_header_word (a ∷ b ∷ c ∷ d ∷ []) = omega arith
decode_header_word (a ∷ b ∷ c ∷ d ∷ e ∷ []) = omega arith
decode_header_word (a ∷ b ∷ c ∷ d ∷ e ∷ f ∷ []) = omega arith
decode_header_word (a ∷ b ∷ c ∷ d ∷ e ∷ f ∷ g ∷ []) = omega arith
decode_header_word (a ∷ b ∷ c ∷ d ∷ e ∷ f ∷ g ∷ h ∷ rest) = omega arith
