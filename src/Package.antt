-- ===== src/Package.antt =====
-- `Header` and `BufferCache` of RPC_util/buffer.h and buffer.cc: packages, a header of eight bytes
-- before each payload, in the byte queue of a cache.
pub mod Layout
pub mod Write
pub mod Prefix
pub mod Check
pub mod Read
pub mod Negative
pub mod Keeps
mod Tests
use cpp_rpc.Prelude.{
  ℕ, Bool, true, false, not, Option, none, some, List, ◌==◌, ltb, if◌then◌else◌, ◌>>=◌,
}
use cpp_rpc.Int32.{to_size, add_size}
use cpp_rpc.Buffer.{Buffer, buffer_realloc}
use cpp_rpc.Cache.{Cache, size, have_a_look, read, write}
use Layout.{Header, magic_number, header_bytes, decode_header}

-- `Buffer buf` over `head`: `sizeof(Header)` bytes at `&head`
abbrev pub header_buffer : Header → Buffer
header_buffer head = record { capacity = 8; length = 8; bytes = header_bytes head }

abbrev pub header_of : ℕ → Header
header_of len = record { magic = magic_number; length = len }

-- the second `write` of `write_package`
pub write_payload : Cache → List ℕ → ℕ → Option (Bool × Cache)
write_payload c buffer len = do
  (n, c') ← write c (record { capacity = len; length = len; bytes = buffer })
  if n == 0 then some (false, c') else some (true, c')

pub write_package : Cache → List ℕ → ℕ → Option (Bool × Cache)
write_package c buffer len = do
  (n, c') ← write c (header_buffer (header_of len))
  if n == 0 then some (false, c') else write_payload c' buffer len

-- `head.length` is read back from the bytes that `have_a_look` or `read` put at `&head`.
module _ (malloc : ℕ → Bool) where
  -- what `read_package` does once a whole package is there
  pub take_package : Cache → Buffer → Buffer → Option (Bool × Header × Buffer × Cache)
  take_package c buf buffer = do
    (_, b, c1) ← read c (record buf { length = 8 })
    (_, out, c2) ← read c1 (record buffer { length = (decode_header b.bytes).length })
    some (true, decode_header b.bytes, out, c2)

  -- the tests of the header that `have_a_look` has shown
  pub check_package : Cache → Buffer → Buffer → Option (Bool × Header × Buffer × Cache)
  check_package c buf buffer =
      let head = decode_header buf.bytes in
      if not (head.magic == magic_number)
      then some (false, head, buffer, c)
      else if ltb (to_size (size c)) (add_size 8 (to_size head.length))
      then some (false, head, buffer, c)
      else take_package c buf (buffer_realloc malloc buffer head.length)

  pub read_package : Cache → Header → Buffer → Option (Bool × Header × Buffer × Cache)
  read_package c head buffer =
      if ltb (to_size (size c)) 8
      then some (false, head, buffer, c)
      else (have_a_look c (header_buffer head) >>= λ (_, buf). check_package c buf buffer)
