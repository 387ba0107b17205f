-- ===== src/Buffer.antt =====
-- `Buffer` of RPC_util/buffer.h and its functions in RPC_util/buffer.cc, and `memcpy`.
-- A storage block is the list of its bytes, a null pointer the empty list. Whether `malloc` finds
-- memory is the argument `malloc`, a function of the size that is asked for.
pub mod Laws
mod Tests
use cpp_rpc.Prelude.{
  ℕ, ◌+◌, ◌≤◌, ◌≡◌, Bool, true, false, ◌&&◌, Option, none, some, List, [], ltb, leb, if◌then◌else◌,
  length, replicate, slice, splice, ◌>>=◌,
}
use cpp_rpc.Int32.{to_size, of_size}

-- `capacity` and `length` are `int`s.
pub record Buffer : Type 0 where
  pub capacity : ℕ
  pub length : ℕ
  pub bytes : List ℕ

-- `Buffer::Buffer()`
abbrev pub empty_buffer : Buffer
empty_buffer = record { capacity = 0; length = 0; bytes = [] }

-- `memcpy(dst + off, src + from, n)`; a fault where it leaves either block
unfoldable pub memcpy : List ℕ → ℕ → List ℕ → ℕ → ℕ → Option (List ℕ)
memcpy dst off src from n =
    if leb (off + n) (length dst) && leb (from + n) (length src)
    then some (splice dst off (slice src from n))
    else none

pub buffer_free : Buffer → Buffer
buffer_free buf = record { capacity = 0; length = 0; bytes = [] }

module _ (malloc : ℕ → Bool) where
  -- `len` is an `unsigned int`; `malloc` is asked for the `int` capacity as a `size_t`.
  unfoldable pub buffer_calloc : Buffer → ℕ → Buffer
  buffer_calloc buf len =
      if malloc (to_size len)
      then record { capacity = len; length = 0; bytes = replicate (to_size len) 0 }
      else record { capacity = 0; length = 0; bytes = [] }

  -- `capacity >= len` compares as `unsigned int`s.
  pub buffer_realloc : Buffer → ℕ → Buffer
  buffer_realloc buf len = if leb len buf.capacity then buf else buffer_calloc (buffer_free buf) len

  pub buffer_copy : Buffer → List ℕ → ℕ → Option Buffer
  buffer_copy buf ptr len =
      let big : Buffer =
        if ltb buf.capacity len then buffer_calloc (buffer_free buf) len else buf in
      memcpy big.bytes 0 ptr 0 len >>= λ d. some (record big { length = len; bytes = d })
