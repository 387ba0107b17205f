-- ===== src/Package/Prefix.antt =====
-- `write_package` of RPC_util/buffer.cc for the front part of a longer buffer, as RPC_server/RequestHandle.cc
-- calls it with a response.
use cpp_rpc.Prelude.{
  ℕ, ◌+◌, ◌≤◌, ◌<◌, ◌≡◌, sym, ap, ◌∙◌, true, some, List, ◌++◌, ◌>>=◌, append_assoc, arith, length,
  length-append, slice, length-slice,
}
use cpp_rpc.Buffer.{Buffer}
use cpp_rpc.Cache.{Cache}
use cpp_rpc.Cache.Inv.{IsValid}
use cpp_rpc.Cache.Fifo.{contents}
use cpp_rpc.Cache.Write.{write_refines}
use cpp_rpc.Package.{header_of, write_payload, write_package}
use cpp_rpc.Package.Layout.{header_bytes, length-header_bytes}
use cpp_rpc.Package.Write.{frame, Accepts-room, write_header}

module _ {c : Cache} (v : IsValid c) (bytes : List ℕ) (n : ℕ) (some_bytes : 0 < n)
    (there : n ≤ length bytes) where
  write_payload-prefix :
      n + length (contents c) < c.buffer.capacity
      → (c' : Cache) × (write_payload c bytes n ≡ some (true, c'))
        × (contents c' ≡ contents c ++ slice bytes 0 n)
        × IsValid c'
        × (c'.buffer.capacity ≡ c.buffer.capacity)
  unfolding write_payload
  write_payload-prefix room =
      let b : Buffer = record { capacity = n; length = n; bytes = bytes } in
      let (c', e, f, v', g) = write_refines v b there (Accepts-room v n some_bytes room) in
      (c', rw (e, ◌>>=◌) (ground (arith, some_bytes)), f, v', g)

module _ {c : Cache} (v : IsValid c) where
  pub write_package-prefix :
      (bytes : List ℕ) (n : ℕ)
      → 0 < n
      → n ≤ length bytes
      → 8 + n + length (contents c) < c.buffer.capacity
      → (c' : Cache) × (write_package c bytes n ≡ some (true, c'))
        × (contents c' ≡ contents c ++ frame (slice bytes 0 n))
        × IsValid c'
        × (c'.buffer.capacity ≡ c.buffer.capacity)
  unfolding write_package
  write_package-prefix bytes n p k room =
      let count : length (slice bytes 0 n) ≡ n = length-slice bytes 0 n (omega (arith, k)) in
      let (c1, e1, f1, v1, g1) = write_header v n (omega arith) in
      let (c2, e2, f2, v2, g2) = write_payload-prefix v1 bytes n p k (
        ground (
          arith,
          g1,
          f1,
          length-append (contents c) (header_bytes (header_of n)),
          length-header_bytes (header_of n),
        )) in
      (
        c2,
        rw (e1, ◌>>=◌) e2,
        f2
            ∙ ap (λ xs. xs ++ slice bytes 0 n) f1
            ∙ append_assoc (contents c) (header_bytes (header_of n)) (slice bytes 0 n)
            ∙ ap (λ m. contents c ++ (header_bytes (header_of m) ++ slice bytes 0 n)) (sym count),
        v2,
        g2 ∙ g1,
      )
