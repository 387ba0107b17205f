-- ===== src/Package/Negative.antt =====
-- What a header with a negative `length` does to `BufferCache::read_package` of RPC_util/buffer.cc.
use cpp_rpc.Prelude.{
  ℕ, ◌+◌, ◌≤◌, ◌<◌, ◌^◌, ◌≡◌, sym, ap, ◌∙◌, Bool, none, List, [], ◌++◌, ◌>>=◌, append-nil, arith,
  length, length-append,
}
use cpp_rpc.Buffer.{Buffer, buffer_realloc}
use cpp_rpc.Cache.{Cache}
use cpp_rpc.Cache.Inv.{IsValid}
use cpp_rpc.Cache.Fifo.{contents}
use cpp_rpc.Cache.Read.{is_empty_of_contents}
use cpp_rpc.Cache.Negative.{read_negative}
use cpp_rpc.Package.Layout.{
  Header, magic_number, header_bytes, decode_header, length-header_bytes,
  decode_header-header_bytes,
}
use cpp_rpc.Package.{take_package, check_package, read_package}
use cpp_rpc.Package.Check.{read_front, shown, splice_same, size-contents, size_small}
use cpp_rpc.Package.Read.{read_package_look}

module _ (malloc : ℕ → Bool) {c : Cache} (v : IsValid c) (h : Header) (rest : List ℕ)
    (low : 2 ^ 32 ≤ h.length + 8) (word : h.length < 2 ^ 32) (magic : h.magic ≡ magic_number)
    (more : 0 < length rest) (e : contents c ≡ header_bytes h ++ rest) where
  decode : decode_header (header_bytes h) ≡ h
  decode = rw (append-nil (header_bytes h)) at (decode_header-header_bytes h [] (omega arith) word)

  take_package_negative :
      (buffer : Buffer) → take_package malloc c (shown malloc v h buffer) buffer ≡ none
  unfolding take_package
  take_package_negative buffer =
      let (c1, r1, s1, v1, b1) =
        read_front v (record (shown malloc v h buffer) { length = 8 }) (header_bytes h) rest e
          (sym (length-header_bytes h)) (omega arith) in
      let r2 =
        read_negative v1 (record buffer { length = h.length }) (omega arith) word
          (is_empty_of_contents v1 (omega (arith, ap length s1))) in
      rw (r1, ◌>>=◌, splice_same (header_bytes h), decode, r2, ◌>>=◌)

  check_package_negative :
      (buffer : Buffer) → check_package malloc c (shown malloc v h buffer) buffer ≡ none
  unfolding check_package
  check_package_negative buffer = rw decode (
      ground (
        arith,
        size-contents v,
        size_small v,
        ap length e,
        length-append (header_bytes h) rest,
        length-header_bytes h,
        take_package_negative (buffer_realloc malloc buffer h.length),
      ))

  -- A header whose `length` lies between -8 and -1, with more bytes behind it, passes every test,
  -- since `sizeof(Header) + head.length` comes round to less than eight; the copy of the payload
  -- then leaves its block, whatever `malloc` does.
  pub read_package_negative :
      (head : Header) (buffer : Buffer) → read_package malloc c head buffer ≡ none
  read_package_negative head buffer =
      read_package_look malloc v head buffer h rest e ∙ check_package_negative buffer
