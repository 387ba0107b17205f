-- ===== src/Package/Keeps.antt =====
-- What write_package and read_package of RPC_util/buffer.cc keep of the cache, whatever they are given, if they
-- are no fault.
use cpp_rpc.Prelude.{
  ℕ, ◌^◌, ◌<◌, inl, inr, Bool, Bool-cases, List, arith, ltb, ◌==◌, Holds, Holds-bind, Holds-each,
  Holds-then, Holds_some,
}
use cpp_rpc.Int32.{to_size, add_size}
use cpp_rpc.Buffer.{Buffer, buffer_realloc}
use cpp_rpc.Cache.{Cache, size, have_a_look, read, write}
use cpp_rpc.Cache.Inv.{IsValid}
use cpp_rpc.Cache.Keeps.{Keeps, Keeps-self, Keeps-then, write-Keeps, read-Keeps}
use cpp_rpc.Package.{
  header_buffer, header_of, write_payload, write_package, take_package, check_package, read_package,
}
use cpp_rpc.Package.Layout.{Header, magic_number, decode_header, decode_header_word}

module _ {c : Cache} (v : IsValid c) where
  write_payload-Keeps :
      (bytes : List ℕ) (len : ℕ)
      → len < 2 ^ 32
      → Holds (λ r. Keeps c r.1) (write_payload c bytes len)
  unfolding write_payload Holds
  write_payload-Keeps bytes len word =
      Holds-bind (λ r. Keeps c r.1) (λ r. Keeps c r.1)
        (write c (record { capacity = len; length = len; bytes = bytes })) _
        (write-Keeps v (record { capacity = len; length = len; bytes = bytes }) word)
        (λ r q k. elim (Bool-cases (r.0 == 0)) [ inl e ↦ rw e k | inr e ↦ rw e k ])

  take_package-Keeps :
      (malloc : ℕ → Bool) (buf buffer : Buffer)
      → Holds (λ r. Keeps c r.3) (take_package malloc c buf buffer)
  unfolding take_package Holds
  take_package-Keeps malloc buf buffer =
      Holds-bind (λ r. Keeps c r.2) (λ r. Keeps c r.3) (read c (record buf { length = 8 })) _
        (read-Keeps v (record buf { length = 8 }) (omega arith))
        (λ r q k.
          let asked = record buffer { length = (decode_header r.1.bytes).length } in
          Holds-bind (λ r'. Keeps r.2 r'.2) (λ r'. Keeps c r'.3) (read r.2 asked) _
            (read-Keeps k.valid asked (decode_header_word r.1.bytes)) (λ r' q' k'. Keeps-then k k'))

  check_package-Keeps :
      (malloc : ℕ → Bool) (buf buffer : Buffer)
      → Holds (λ r. Keeps c r.3) (check_package malloc c buf buffer)
  unfolding check_package Holds
  check_package-Keeps malloc buf buffer =
      let head = decode_header buf.bytes in
      elim (Bool-cases (head.magic == magic_number)) [
        | inl e ↦ elim (Bool-cases (ltb (to_size (size c)) (add_size 8 (to_size head.length)))) [
          | inl f ↦ rw (e, f) (Keeps-self v)
          | inr f ↦
              rw (e, f) (take_package-Keeps malloc buf (buffer_realloc malloc buffer head.length))
        ]
        | inr e ↦ rw e (Keeps-self v)
      ]

  pub read_package-Keeps :
      (malloc : ℕ → Bool) (head : Header) (b : Buffer)
      → Holds (λ r. Keeps c r.3) (read_package malloc c head b)
  unfolding read_package Holds
  read_package-Keeps malloc head b = elim (Bool-cases (ltb (to_size (size c)) 8)) [
    | inl e ↦ rw e (Keeps-self v)
    | inr e ↦ rw e (
        Holds-then (λ r. Keeps c r.3) (have_a_look c (header_buffer head)) _
          (λ r q. check_package-Keeps malloc r.1 b))
  ]

module _ {c : Cache} (v : IsValid c) where
  pub write_package-Keeps :
      (bytes : List ℕ) (len : ℕ)
      → len < 2 ^ 32
      → Holds (λ r. Keeps c r.1) (write_package c bytes len)
  unfolding write_package Holds
  write_package-Keeps bytes len word =
      Holds-bind (λ r. Keeps c r.1) (λ r. Keeps c r.1) (write c (header_buffer (header_of len))) _
        (write-Keeps v (header_buffer (header_of len)) (omega arith))
        (λ r q k. elim (Bool-cases (r.0 == 0)) [
          | inl e ↦ rw e k
          | inr e ↦ rw e (
              Holds-each (λ r'. Keeps c r'.1) (write_payload r.1 bytes len)
                (λ r' q'.
                  Keeps-then k (Holds_some _ _ r' q' (write_payload-Keeps k.valid bytes len word))))
        ])
