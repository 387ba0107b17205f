-- ===== src/Server/Receive.antt =====
-- What both `read_socket`s do with a block that `read(2)` has filled.
use cpp_rpc.Prelude.{
  ℕ, ◌+◌, ◌<◌, ◌≤◌, ◌≡◌, refl, ap, ◌∙◌, false, some, List, ◌++◌, ◌==◌, arith, length, take,
  take_all, splice, slice-splice_at, length-splice,
}
use cpp_rpc.Int32.{of_size}
use cpp_rpc.Assoc.{string_key}
use cpp_rpc.Buffer.{Buffer}
use cpp_rpc.Cache.{Cache, write}
use cpp_rpc.Cache.Inv.{IsValid}
use cpp_rpc.Cache.Fifo.{contents}
use cpp_rpc.Cache.Write.{write_refines}
use cpp_rpc.Package.Write.{Accepts-room}
use cpp_rpc.Send.{block_size, fresh_block}
use cpp_rpc.Server.{received, received_length, received_bytes}

-- a block that is received goes to the end of the read cache
pub receive_lem :
    {c : Cache} (xs : List ℕ)
    → IsValid c
    → 0 < length xs
    → length xs ≤ block_size
    → length xs + length (contents c) < c.buffer.capacity
    → let b : Buffer = record fresh_block {
      length = of_size (received_length (received xs));
      bytes = splice fresh_block.bytes 0 (received_bytes (received xs));
    } in
      (c' : Cache) × (write c b ≡ some (length xs, c'))
      × (contents c' ≡ contents c ++ xs)
      × IsValid c'
      × (block_size ≤ length b.bytes)
      × (c'.buffer.capacity ≡ c.buffer.capacity)
unfolding received_length received_bytes
receive_lem {c} xs v p k room =
    let all : take block_size xs ≡ xs = take_all block_size xs k in
    let b : Buffer = record fresh_block {
      length = length xs;
      bytes = splice fresh_block.bytes 0 xs;
    } in
    let fill : length b.bytes ≡ block_size =
      length-splice fresh_block.bytes 0 xs (omega (arith, k)) in
    let (c', w, f, v', g) =
      write_refines v b (omega (arith, fill)) (Accepts-room v (length xs) p room) in
    let small : of_size (length xs) ≡ length xs = omega arith in
    rw (all, small)
      (
        c',
        w,
        f
            ∙ ap (λ ys. contents c ++ ys)
                (slice-splice_at fresh_block.bytes 0 xs (length xs) (omega arith) refl),
        v',
        omega (arith, fill),
        g,
      )

pub received_length-positive :
    (xs : List ℕ)
    → 0 < length xs
    → length xs ≤ block_size
    → (received_length (received xs) == 0) ≡ false
unfolding received_length
received_length-positive xs p k = rw (take_all block_size xs k) (ground arith)
