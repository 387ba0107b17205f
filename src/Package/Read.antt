-- ===== src/Package/Read.antt =====
-- `BufferCache::read_package` of RPC_util/buffer.cc: it takes the first package off the queue of
-- bytes, waits while the package is not all there, and stops at a header that is none.
use cpp_rpc.Prelude.{
  ℕ, ◌+◌, ◌≤◌, ◌<◌, ◌^◌, ◌≡◌, ◌≢◌, refl, sym, ap, ◌∙◌, inl, inr, Bool, true, false, some, List,
  ◌++◌, ◌>>=◌, append_assoc, append_inj, arith, length, length-append, slice, splice,
  slice-splice_at, length-splice, ltb, take, length-take, take-append-drop, drop, Bool-cases,
}
use cpp_rpc.Int32.{to_size}
use cpp_rpc.Buffer.{Buffer, buffer_realloc}
use cpp_rpc.Buffer.Laws.{IsSized, buffer_realloc_lem}
use cpp_rpc.Cache.{Cache, size}
use cpp_rpc.Cache.Inv.{IsValid}
use cpp_rpc.Cache.Fifo.{contents}
use cpp_rpc.Package.Layout.{Header, magic_number, header_bytes, length-header_bytes}
use cpp_rpc.Package.{header_of, check_package, read_package}
use cpp_rpc.Package.Write.{frame}
use cpp_rpc.Package.Check.{
  size-contents, size_small, look_header, shown, check_package_short, check_package_whole,
  check_package_alien, take_package_lem,
}

module _ (malloc : ℕ → Bool) {c : Cache} (v : IsValid c) (head : Header) (buffer : Buffer) where
  -- With eight bytes or more, `read_package` goes by the header that they are.
  pub read_package_look :
      (h : Header) (rest : List ℕ)
      → contents c ≡ header_bytes h ++ rest
      → read_package malloc c head buffer ≡ check_package malloc c (shown malloc v h buffer) buffer
  unfolding read_package
  read_package_look h rest e =
      let total : length (contents c) ≡ 8 + length rest =
        ap length e ∙ length-append (header_bytes h) rest ∙ omega (arith, length-header_bytes h) in
      let there : ltb (to_size (size c)) 8 ≡ false =
        ground (arith, size-contents v, size_small v) in
      rw (there, look_header v head h rest e, ◌>>=◌)

  -- With fewer than the eight bytes of a header `read_package` returns false and changes nothing.
  pub read_package_nothing :
      length (contents c) < 8 → read_package malloc c head buffer ≡ some (false, head, buffer, c)
  unfolding read_package
  read_package_nothing lt = ground (arith, size-contents v, size_small v)

  -- A package at the front of the queue is taken off whole: `read_package` returns true, with the
  -- header and the payload, and what follows the package is left in the queue.
  pub read_package_refines :
      (p rest : List ℕ)
      → contents c ≡ frame p ++ rest
      → malloc (length p) ≡ true
      → IsSized buffer
      → (b : Buffer) × (c' : Cache) × (read_package malloc c head buffer
          ≡ some (true, header_of (length p), b, c'))
        × (b.length ≡ length p)
        × (slice b.bytes 0 (length p) ≡ p)
        × IsSized b
        × (contents c' ≡ rest)
        × IsValid c'
  read_package_refines p rest e got sized =
      let h = header_of (length p) in
      let total : length (contents c) ≡ 8 + length p + length rest =
        ap length e
        ∙ length-append (frame p) rest
        ∙ omega (arith, length-append (header_bytes h) p, length-header_bytes h) in
      let short : length p < 2 ^ 31 = omega (arith, size_small v) in
      let grown = buffer_realloc malloc buffer (length p) in
      let fits = buffer_realloc_lem malloc buffer (length p) short got sized in
      let (c', t, r, v') =
        take_package_lem malloc v h grown (omega arith) short p rest e refl fits.2 in
      (
        record grown { length = length p; bytes = splice grown.bytes 0 p },
        c',
        read_package_look h (p ++ rest) (e ∙ append_assoc (header_bytes h) p rest)
            ∙ check_package_whole malloc v h buffer (omega arith) short refl (omega arith)
            ∙ t,
        refl,
        slice-splice_at grown.bytes 0 p (length p) (omega arith) refl,
        omega (arith, fits.0, length-splice grown.bytes 0 p, fits.2),
        r,
        v',
      )

  -- While a part of a package is still missing, `read_package` returns false and leaves the queue
  -- and the buffer as they are.
  pub read_package_waits :
      (p xs ys : List ℕ)
      → length p < 2 ^ 31
      → frame p ≡ xs ++ ys
      → 0 < length ys
      → contents c ≡ xs
      → (h : Header) × (read_package malloc c head buffer ≡ some (false, h, buffer, c))
  read_package_waits p xs ys short split more e = elim (Bool-cases (ltb (length xs) 8)) [
    | inl few ↦ (head, read_package_nothing (ground (arith, ap length e)))
    | inr enough ↦ (header_of (length p), started (ground arith))
  ]
    where
      started :
          8 ≤ length xs
          → read_package malloc c head buffer ≡ some (false, header_of (length p), buffer, c)
      started le =
          let h = header_of (length p) in
          let sizes : 8 + length p ≡ length xs + length ys = omega (
            arith,
            ap length split,
            length-append (header_bytes h) p,
            length-append xs ys,
            length-header_bytes h,
          ) in
          let cut = take-append-drop 8 xs in
          let same =
            append_inj (header_bytes h) (take 8 xs)
              (omega (arith, length-take 8 xs, length-header_bytes h))
              (split ∙ ap (λ zs. zs ++ ys) (sym cut) ∙ append_assoc (take 8 xs) (drop 8 xs) ys) in
          read_package_look h (drop 8 xs) (e ∙ sym cut ∙ ap (λ zs. zs ++ drop 8 xs) (sym same.0))
          ∙ check_package_short malloc v h buffer (omega arith) short refl
              (omega (arith, ap length e))

  -- A header with another magic number stops the reader for good: nothing is taken off the queue.
  pub read_package_stuck :
      (h : Header) (rest : List ℕ)
      → h.magic < 2 ^ 32
      → h.length < 2 ^ 31
      → h.magic ≢ magic_number
      → contents c ≡ header_bytes h ++ rest
      → read_package malloc c head buffer ≡ some (false, h, buffer, c)
  read_package_stuck h rest m l ne e =
      read_package_look h rest e ∙ check_package_alien malloc v h buffer m l ne
