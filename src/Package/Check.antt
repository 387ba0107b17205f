-- ===== src/Package/Check.antt =====
-- What `BufferCache::read_package` of RPC_util/buffer.cc does with the header that it has looked at.
use cpp_rpc.Prelude.{
  ℕ, ◌+◌, ◌≤◌, ◌<◌, ◌^◌, ◌≡◌, ◌≢◌, sym, ap, ◌∙◌, Bool, true, false, some, List, [], ◌++◌, ◌>>=◌,
  append_assoc, append-nil, append_inj, arith, length, length-append, splice, splice_whole,
  drop_all,
}
use cpp_rpc.Buffer.{Buffer, buffer_realloc}
use cpp_rpc.Cache.{Cache, size, read, have_a_look}
use cpp_rpc.Cache.Inv.{IsValid, size_lem, held-le-capacity}
use cpp_rpc.Cache.Fifo.{contents}
use cpp_rpc.Cache.Read.{length-contents, read_refines, have_a_look_refines}
use cpp_rpc.Package.Layout.{
  Header, magic_number, header_bytes, decode_header, length-header_bytes,
  decode_header-header_bytes,
}
use cpp_rpc.Package.{header_buffer, take_package, check_package}

module _ {c : Cache} (v : IsValid c) where
  pub size-contents : size c ≡ length (contents c)
  size-contents = size_lem v ∙ sym (length-contents v)

  pub size_small : length (contents c) < 2 ^ 31
  size_small = ground (arith, length-contents v, held-le-capacity v, v.small)

  -- Given as much as it asks for, `read` takes the front of the queue.
  pub read_front :
      (buf : Buffer) (xs rest : List ℕ)
      → contents c ≡ xs ++ rest
      → buf.length ≡ length xs
      → length xs ≤ length buf.bytes
      → (c' : Cache) × (read c buf
          ≡ some (length xs, record buf { bytes = splice buf.bytes 0 xs }, c'))
        × (contents c' ≡ rest)
        × IsValid c'
        × (c'.buffer ≡ c.buffer)
  read_front buf xs rest e l k =
      let total : length (contents c) ≡ length xs + length rest =
        ap length e ∙ length-append xs rest in
      let (out, c', r, n, s, v', b) =
        read_refines v buf (omega (arith, size_small)) (omega arith) in
      let same = append_inj out xs (omega arith) (sym s ∙ e) in
      (c', r ∙ ground (arith, same), same.1, v', b)

  -- The eight bytes that `read_package` looks at first are the header that the queue begins with.
  pub look_header :
      (head h : Header) (rest : List ℕ)
      → contents c ≡ header_bytes h ++ rest
      → have_a_look c (header_buffer head)
        ≡ some (8, record { capacity = 8; length = 8; bytes = header_bytes h })
  look_header head h rest e =
      let l = length-header_bytes h in
      let l' = length-header_bytes head in
      let total : length (contents c) ≡ 8 + length rest =
        ap length e ∙ length-append (header_bytes h) rest ∙ omega arith in
      let (out, rest', r, n, s) =
        have_a_look_refines v (header_buffer head) (omega arith) (omega arith) in
      let same = append_inj out (header_bytes h) (omega arith) (sym s ∙ e) in
      let whole : splice (header_bytes head) 0 out ≡ header_bytes h = ground (
        arith,
        same,
        splice_whole (header_bytes head) (header_bytes h),
        drop_all (length (header_bytes h)) (header_bytes head),
        append-nil (header_bytes h),
      ) in
      r ∙ ground (arith, whole, same)

-- Writing over a block what it holds changes nothing.
pub splice_same : (xs : List ℕ) → splice xs 0 xs ≡ xs
splice_same xs =
    splice_whole xs xs ∙ ap (◌++◌ xs) (drop_all (length xs) xs (omega arith)) ∙ append-nil xs

-- What `check_package` does once `have_a_look` has shown the header `h`.
module _ (malloc : ℕ → Bool) {c : Cache} (v : IsValid c) (h : Header) (buffer : Buffer) where
  abbrev pub shown : Buffer
  shown = record { capacity = 8; length = 8; bytes = header_bytes h }

  module _ (m : h.magic < 2 ^ 32) (l : h.length < 2 ^ 31) where
    pub decode-shown : decode_header (header_bytes h) ≡ h
    decode-shown =
        rw (append-nil (header_bytes h)) at (decode_header-header_bytes h [] m (omega arith))

    pub check_package_short :
        h.magic ≡ magic_number
        → length (contents c) < 8 + h.length
        → check_package malloc c shown buffer ≡ some (false, h, buffer, c)
    unfolding check_package
    check_package_short e lt = rw (decode-shown) (ground (arith, size-contents v, size_small v))

    pub check_package_whole :
        h.magic ≡ magic_number
        → 8 + h.length ≤ length (contents c)
        → check_package malloc c shown buffer
          ≡ take_package malloc c shown (buffer_realloc malloc buffer h.length)
    unfolding check_package
    check_package_whole e le = rw (decode-shown) (ground (arith, size-contents v, size_small v))

    pub check_package_alien :
        h.magic ≢ magic_number → check_package malloc c shown buffer ≡ some (false, h, buffer, c)
    unfolding check_package
    check_package_alien ne = rw (decode-shown) (ground arith)

    -- A whole package at the front of the queue is moved into the buffer.
    pub take_package_lem :
        (p rest : List ℕ)
        → contents c ≡ header_bytes h ++ p ++ rest
        → h.length ≡ length p
        → length p ≤ length buffer.bytes
        → (c' : Cache) × (take_package malloc c shown buffer
            ≡ some
                (true, h, record buffer { length = length p; bytes = splice buffer.bytes 0 p }, c'))
          × (contents c' ≡ rest)
          × IsValid c'
    unfolding take_package
    take_package_lem p rest e n k =
        let hl = length-header_bytes h in
        let (c1, r1, s1, v1, b1) =
          read_front v (record shown { length = 8 }) (header_bytes h) (p ++ rest)
            (e ∙ append_assoc (header_bytes h) p rest) (sym hl) (omega arith) in
        let (c2, r2, s2, v2, b2) =
          read_front v1 (record buffer { length = h.length }) p rest s1 n k in
        (
          c2,
          rw (r1, ◌>>=◌, splice_same (header_bytes h), decode-shown, r2, ◌>>=◌)
              (ap
                (λ k.
                  some (true, h, record buffer { length = k; bytes = splice buffer.bytes 0 p }, c2))
                n),
          s2,
          v2,
        )
