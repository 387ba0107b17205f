-- ===== src/Package/Write.antt =====
-- `BufferCache::write_package` of RPC_util/buffer.cc: a package goes in whole, or not at all, or, and
-- this is the fault, by its header alone.
use cpp_rpc.Prelude.{
  ℕ, ◌+◌, ◌<◌, ◌^◌, ◌≡◌, refl, sym, ap, ◌∙◌, ◌⊎◌, inl, inr, true, false, some, List, [], ◌++◌,
  append-nil, ◌>>=◌, append_assoc, arith, length, length-append, slice_whole,
}
use cpp_rpc.Buffer.{Buffer}
use cpp_rpc.Cache.{Cache, write}
use cpp_rpc.Cache.Inv.{IsValid, free, held-le-capacity}
use cpp_rpc.Cache.Fifo.{contents}
use cpp_rpc.Cache.Read.{length-contents}
use cpp_rpc.Cache.Write.{Accepts, write_refines, write_rejects}
use cpp_rpc.Package.Layout.{header_bytes, length-header_bytes}
use cpp_rpc.Package.{header_buffer, header_of, write_payload, write_package}

-- a payload as it goes over the wire
abbrev pub frame : List ℕ → List ℕ
frame p = header_bytes (header_of (length p)) ++ p

module _ {c : Cache} (v : IsValid c) where
  pub Accepts-room : (n : ℕ) → 0 < n → n + length (contents c) < c.buffer.capacity → Accepts v n
  Accepts-room n p h = ground (arith, length-contents v, held-le-capacity v)

  -- A block for which more room than it needs is left is appended to the queue.
  write_whole :
      (buf : Buffer)
      → buf.length ≡ length buf.bytes
      → 0 < buf.length
      → buf.length + length (contents c) < c.buffer.capacity
      → (c' : Cache) × (write c buf ≡ some (buf.length, c'))
        × (contents c' ≡ contents c ++ buf.bytes)
        × IsValid c'
        × (c'.buffer.capacity ≡ c.buffer.capacity)
  write_whole buf e p h =
      let (c', w, f, v', g) = write_refines v buf (omega arith) (Accepts-room buf.length p h) in
      (c', w, f ∙ ap (◌++◌ (contents c)) (rw e (slice_whole buf.bytes)), v', g)

module _ {c : Cache} (v : IsValid c) (p : List ℕ) where
  -- the second `write`, for a payload that leaves room
  write_payload_lem :
      0 < length p
      → length p + length (contents c) < c.buffer.capacity
      → (c' : Cache) × (write_payload c p (length p) ≡ some (true, c'))
        × (contents c' ≡ contents c ++ p)
        × IsValid c'
        × (c'.buffer.capacity ≡ c.buffer.capacity)
  unfolding write_payload
  write_payload_lem h k =
      let b : Buffer = record { capacity = length p; length = length p; bytes = p } in
      let (c', e, f, v', g) = write_whole v b refl h k in
      (c', rw (e, ◌>>=◌) (ground arith), f, v', g)

  -- the second `write`, for a payload that is empty or too long
  write_payload_rejects :
      length p < 2 ^ 32
      → ((length p ≡ 0) ⊎ (c.buffer.capacity < length p + length (contents c)))
      → write_payload c p (length p) ≡ some (false, c)
  unfolding write_payload
  write_payload_rejects h r =
      let b : Buffer = record { capacity = length p; length = length p; bytes = p } in
      rw (write_rejects v b (omega arith) h (refused r), ◌>>=◌)
    where
      refused :
          ((length p ≡ 0) ⊎ (c.buffer.capacity < length p + length (contents c)))
          → (c.tail + 1 ≡ c.head) ⊎ ((free c < length p) ⊎ (length p ≡ 0))
      refused (inl e) = inr (inr e)
      refused (inr lt) = inr (inl (omega (arith, length-contents v, held-le-capacity v)))

module _ {c : Cache} (v : IsValid c) where
  -- the first `write`
  pub write_header :
      (len : ℕ)
      → 8 + length (contents c) < c.buffer.capacity
      → (c' : Cache) × (write c (header_buffer (header_of len)) ≡ some (8, c'))
        × (contents c' ≡ contents c ++ header_bytes (header_of len))
        × IsValid c'
        × (c'.buffer.capacity ≡ c.buffer.capacity)
  write_header len h =
      write_whole v (header_buffer (header_of len)) (sym (length-header_bytes (header_of len)))
        (omega arith) h

  -- Where the payload is not empty and more room than the package needs is left, `write_package` succeeds,
  -- and its header and its payload come last in the queue.
  pub write_package_refines :
      (p : List ℕ)
      → 0 < length p
      → 8 + length p + length (contents c) < c.buffer.capacity
      → (c' : Cache) × (write_package c p (length p) ≡ some (true, c'))
        × (contents c' ≡ contents c ++ frame p)
        × IsValid c'
        × (c'.buffer.capacity ≡ c.buffer.capacity)
  unfolding write_package
  write_package_refines p h k =
      let (c1, e1, f1, v1, g1) = write_header (length p) (omega arith) in
      let (c2, e2, f2, v2, g2) = write_payload_lem v1 p h (
        ground (
          arith,
          g1,
          f1,
          length-append (contents c) (header_bytes (header_of (length p))),
          length-header_bytes (header_of (length p)),
        )) in
      (
        c2,
        rw (e1, ◌>>=◌) e2,
        f2
            ∙ ap (λ xs. xs ++ p) f1
            ∙ append_assoc (contents c) (header_bytes (header_of (length p))) p,
        v2,
        g2 ∙ g1,
      )

  -- An empty payload is written as a header alone, and `write_package` returns false.
  pub write_package_empty :
      8 + length (contents c) < c.buffer.capacity
      → (c' : Cache) × (write_package c [] 0 ≡ some (false, c'))
        × (contents c' ≡ contents c ++ frame [])
        × IsValid c'
  unfolding write_package
  write_package_empty h =
      let (c1, e1, f1, v1, g1) = write_header 0 h in
      (
        c1,
        rw (e1, ◌>>=◌) (write_payload_rejects v1 [] (omega arith) (inl refl)),
        f1 ∙ ap (◌++◌ (contents c)) (sym (append-nil (header_bytes (header_of 0)))),
        v1,
      )

  -- Where not even the header fits, `write_package` returns false and changes nothing.
  pub write_package_full :
      (p : List ℕ)
      → c.buffer.capacity < 8 + length (contents c)
      → write_package c p (length p) ≡ some (false, c)
  unfolding write_package
  write_package_full p h = rw (
    write_rejects v (header_buffer (header_of (length p)))
        (omega (arith, length-header_bytes (header_of (length p)))) (omega arith)
        (inr (inl (omega (arith, length-contents v, held-le-capacity v)))),
    ◌>>=◌,
  )
