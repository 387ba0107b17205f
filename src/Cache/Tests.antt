-- ===== src/Cache/Tests.antt =====
-- Runs of the cache of RPC_util/buffer.cc on a block of six bytes, and its theorems there.
use cpp_rpc.Prelude.{
  ℕ, ◌≡◌, refl, inl, inr, some, List, [], ◌∷◌, ◌++◌, arith, true, length, slice, splice, min,
}
use cpp_rpc.Buffer.{Buffer, memcpy}
use cpp_rpc.Cache.{Cache, read, read_clipped, clip, copy_out, head_after, write, is_empty, size}
use cpp_rpc.Cache.Inv.{IsValid}
use cpp_rpc.Cache.Fifo.{contents, window}
use cpp_rpc.Cache.Read.{read_refines}
use cpp_rpc.Cache.Write.{Accepts, write_refines, write_round}

-- 1, 2, 3, round the end of the block
abbrev wrapped : Cache
wrapped = record {
  buffer = record { capacity = 6; length = 0; bytes = 2 ∷ 3 ∷ 9 ∷ 9 ∷ 9 ∷ 1 ∷ [] };
  head = 5;
  tail = 2;
}

wrapped-IsValid : IsValid wrapped
wrapped-IsValid = record {
  storage = refl;
  small = omega arith;
  head_in = omega arith;
  tail_in = omega arith;
  started = inr (omega arith);
}

contents-wrapped : contents wrapped ≡ 1 ∷ 2 ∷ 3 ∷ []
unfolding contents window slice
contents-wrapped = refl

abbrev room : Buffer
room = record { capacity = 2; length = 2; bytes = 0 ∷ 0 ∷ [] }

abbrev two : Buffer
two = record { capacity = 2; length = 2; bytes = 7 ∷ 8 ∷ [] }

abbrev three : Buffer
three = record { capacity = 3; length = 3; bytes = 7 ∷ 8 ∷ 9 ∷ [] }

abbrev four : Buffer
four = record { capacity = 4; length = 4; bytes = 7 ∷ 8 ∷ 9 ∷ 9 ∷ [] }

abbrev minus_one : Buffer
minus_one = record { capacity = 2; length = 0xffff_ffff; bytes = 0 ∷ 0 ∷ [] }

read-wrapped :
    read wrapped room ≡ some (2, record room { bytes = 1 ∷ 2 ∷ [] }, record wrapped { head = 1 })
unfolding read read_clipped clip size is_empty copy_out memcpy head_after slice splice
read-wrapped = refl

read_refines_example :
    (out : List ℕ) × (c : Cache) × (read wrapped room
      ≡ some (length out, record room { length = length out; bytes = splice room.bytes 0 out }, c))
    × (length out ≡ min 2 (length (contents wrapped)))
    × (contents wrapped ≡ out ++ contents c)
    × IsValid c
    × (c.buffer ≡ wrapped.buffer)
unfolding contents window slice
read_refines_example = read_refines wrapped-IsValid room (omega arith) (omega arith)

wrapped-Accepts : Accepts wrapped-IsValid 2
wrapped-Accepts = record {
  some_bytes = omega arith;
  fits = omega arith;
  more_than_one = omega arith;
  not_round = inl (omega arith);
}

write_refines_example :
    (c : Cache) × (write wrapped two ≡ some (2, c))
    × (contents c ≡ contents wrapped ++ slice two.bytes 0 2)
    × IsValid c
    × (c.buffer.capacity ≡ 6)
write_refines_example = write_refines wrapped-IsValid two (omega arith) wrapped-Accepts

-- Three bytes fit exactly: all six are gone.
write_round_example :
    (c : Cache) × (write wrapped three ≡ some (3, c)) × (is_empty c ≡ true) × (contents c ≡ [])
write_round_example =
    write_round wrapped-IsValid three (omega arith) (omega arith) (omega arith) (omega arith)
      (omega arith)
