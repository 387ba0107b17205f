-- ===== src/Package/Tests.antt =====
-- Packages in a cache of sixteen bytes, RPC_util/buffer.cc, and the theorems about them there.
use cpp_rpc.Prelude.{
  ℕ, ◌≡◌, refl, inl, none, some, List, [], ◌∷◌, ◌++◌, arith, Bool, true, length, slice, replicate,
}
use cpp_rpc.Buffer.{Buffer, empty_buffer}
use cpp_rpc.Buffer.Laws.{IsSized}
use cpp_rpc.Cache.{Cache}
use cpp_rpc.Cache.Inv.{IsValid}
use cpp_rpc.Cache.Fifo.{contents, window}
use cpp_rpc.Package.{header_of, write_package, read_package}
use cpp_rpc.Package.Layout.{Header, header_bytes, int_bytes, magic_number}
use cpp_rpc.Package.Write.{frame, write_package_refines}
use cpp_rpc.Package.Read.{read_package_refines}
use cpp_rpc.Package.Negative.{read_package_negative}

abbrev plenty : ℕ → Bool
plenty n = true

-- a cache of sixteen bytes that holds `xs` from its start on
abbrev holding : List ℕ → Cache
holding xs = record {
  buffer = record { capacity = 16; length = 0; bytes = xs };
  head = 0;
  tail = 16;
}

abbrev idle : Cache
idle = record (holding (replicate 16 0)) { tail = 0 }

idle-IsValid : IsValid idle
idle-IsValid = record {
  storage = refl;
  small = omega arith;
  head_in = omega arith;
  tail_in = omega arith;
  started = inl refl;
}

holding-IsValid : (xs : List ℕ) → length xs ≡ 16 → IsValid (holding xs)
holding-IsValid xs e = record {
  storage = e;
  small = omega arith;
  head_in = omega arith;
  tail_in = omega arith;
  started = inl refl;
}

abbrev payload : List ℕ
payload = 5 ∷ 6 ∷ 7 ∷ []

abbrev long : List ℕ
long = replicate 9 1

-- the package of `payload`, with the first five bytes of another behind it
abbrev one_and_more : List ℕ
one_and_more =
    0xd5 ∷ 0xc4 ∷ 0xb3 ∷ 0xa2 ∷ 3 ∷ 0 ∷ 0 ∷ 0 ∷ 5 ∷ 6 ∷ 7 ∷ 0xd5 ∷ 0xc4 ∷ 0xb3 ∷ 0xa2 ∷ 9 ∷ []

-- the first sixteen bytes of the package of `long`
abbrev unfinished : List ℕ
unfinished = 0xd5 ∷ 0xc4 ∷ 0xb3 ∷ 0xa2 ∷ 9 ∷ 0 ∷ 0 ∷ 0 ∷ 1 ∷ 1 ∷ 1 ∷ 1 ∷ 1 ∷ 1 ∷ 1 ∷ 1 ∷ []

abbrev alien : Header
alien = record { magic = 1; length = 2 }

abbrev alien_bytes : List ℕ
alien_bytes = 1 ∷ 0 ∷ 0 ∷ 0 ∷ 2 ∷ 0 ∷ 0 ∷ 0 ∷ 1 ∷ 1 ∷ 1 ∷ 1 ∷ 1 ∷ 1 ∷ 1 ∷ 1 ∷ []

abbrev negative : Header
negative = record { magic = magic_number; length = 0xffff_ffff }

abbrev negative_bytes : List ℕ
negative_bytes =
    0xd5 ∷ 0xc4 ∷ 0xb3 ∷ 0xa2 ∷ 0xff ∷ 0xff ∷ 0xff ∷ 0xff ∷ 1 ∷ 1 ∷ 1 ∷ 1 ∷ 1 ∷ 1 ∷ 1 ∷ 1 ∷ []

abbrev no_header : Header
no_header = record { magic = 0; length = 0 }

contents-idle : contents idle ≡ []
unfolding contents window slice
contents-idle = refl

write_package_refines_example :
    (c : Cache) × (write_package idle payload 3 ≡ some (true, c))
    × (contents c ≡ contents idle ++ frame payload)
    × IsValid c
    × (c.buffer.capacity ≡ 16)
write_package_refines_example =
    write_package_refines idle-IsValid payload (omega arith) (rw contents-idle (omega arith))

read_package_refines_example :
    (b : Buffer) × (c : Cache) × (read_package plenty (holding one_and_more) no_header empty_buffer
      ≡ some (true, header_of 3, b, c))
    × (b.length ≡ 3)
    × (slice b.bytes 0 3 ≡ payload)
    × IsSized b
    × (contents c ≡ 0xd5 ∷ 0xc4 ∷ 0xb3 ∷ 0xa2 ∷ 9 ∷ [])
    × IsValid c
unfolding contents window slice header_bytes int_bytes
read_package_refines_example =
    read_package_refines plenty (holding-IsValid one_and_more refl) no_header empty_buffer payload
      (0xd5 ∷ 0xc4 ∷ 0xb3 ∷ 0xa2 ∷ 9 ∷ []) refl refl (omega arith)

read_package_negative_example :
    read_package plenty (holding negative_bytes) no_header empty_buffer ≡ none
unfolding contents window slice header_bytes int_bytes
read_package_negative_example =
    read_package_negative plenty (holding-IsValid negative_bytes refl) negative
      (1 ∷ 1 ∷ 1 ∷ 1 ∷ 1 ∷ 1 ∷ 1 ∷ 1 ∷ []) (omega arith) (omega arith) refl (omega arith) refl
      no_header empty_buffer
