-- ===== src/Cache.antt =====
-- `BufferCacheBase` of RPC_util/buffer.h and buffer.cc: the ring of bytes behind every socket.
-- A method is one step; what changes is returned beside its result, and `none` is a `memcpy` that
-- leaves a block. `write` and `read` run under the cache's mutex, so a step is atomic.
pub mod Inv
pub mod Fifo
pub mod Read
pub mod Write
pub mod Negative
pub mod Keeps
mod Tests
use cpp_rpc.Prelude.{ℕ, ◌-◌, Bool, ◌||◌, Option, none, some, List, [], ◌==◌, if◌then◌else◌, ◌>>=◌}
use cpp_rpc.Int32.{add_int, sub_int, lt_int, le_int, to_size}
use cpp_rpc.Buffer.{Buffer, empty_buffer, memcpy, buffer_calloc, buffer_free}

pub record Cache : Type 0 where
  pub buffer : Buffer
  pub head : ℕ
  pub tail : ℕ

-- `BufferCacheBase::BufferCacheBase(int)` and the destructor
pub new_cache : (ℕ → Bool) → ℕ → Cache
new_cache malloc size = record {
  buffer = buffer_calloc malloc empty_buffer size;
  head = 0;
  tail = 0;
}

pub delete_cache : Cache → Cache
delete_cache c = record c { buffer = buffer_free c.buffer }

pub size : Cache → ℕ
size c =
    if le_int c.head c.tail
    then sub_int c.tail c.head
    else sub_int (add_int c.tail c.buffer.capacity) c.head

pub capacity : Cache → ℕ
capacity c = c.buffer.capacity

pub is_empty : Cache → Bool
is_empty c = c.head == c.tail

-- The first `return`; the one below it in the source is not reached.
pub is_full : Cache → Bool
is_full c = add_int c.tail 1 == c.head

-- `if(buf.length > size()) buf.length = size();`
pub clip : Cache → Buffer → Buffer
clip c buf = record buf { length = if lt_int (size c) buf.length then size c else buf.length }

-- the bytes that `have_a_look` and `read` copy out, in one piece or in two
pub copy_out : Cache → Buffer → Option (List ℕ)
copy_out c buf =
    if le_int buf.length (sub_int c.buffer.capacity c.head)
    then memcpy buf.bytes 0 c.buffer.bytes c.head (to_size buf.length)
    else (memcpy buf.bytes 0 c.buffer.bytes c.head (to_size len) >>= λ d.
        memcpy d len c.buffer.bytes 0 (to_size (sub_int buf.length len)))
  where
    len : ℕ
    len = sub_int c.buffer.capacity c.head

-- The body of `have_a_look` below the clipping. The result is the number that the call returns, and
-- what is in `buf` after it.
pub look_clipped : Cache → Buffer → Option (ℕ × Buffer)
look_clipped c b =
    if is_empty c
    then some (0, b)
    else (copy_out c b >>= λ d. some (b.length, record b { bytes = d }))

pub have_a_look : Cache → Buffer → Option (ℕ × Buffer)
have_a_look c buf = look_clipped c (clip c buf)

-- `m_head` after a `read` of `n` bytes
pub head_after : Cache → ℕ → ℕ
head_after c n =
    if le_int n (sub_int c.buffer.capacity c.head)
    then add_int c.head n
    else sub_int n (sub_int c.buffer.capacity c.head)

pub read_clipped : Cache → Buffer → Option (ℕ × Buffer × Cache)
read_clipped c b =
    if is_empty c
    then some (0, b, c)
    else (copy_out c b >>= λ d.
        some (b.length, record b { bytes = d }, record c { head = head_after c b.length }))

pub read : Cache → Buffer → Option (ℕ × Buffer × Cache)
read c buf = read_clipped c (clip c buf)

-- `is_full() || buf.length > capacity()-size() || buf.length <= 0`
pub rejects : Cache → ℕ → Bool
rejects c len = is_full c || lt_int (sub_int (capacity c) (size c)) len || le_int len 0

pub copy_in : Cache → List ℕ → ℕ → Option (List ℕ)
copy_in c bytes length =
    if le_int length (sub_int c.buffer.capacity c.tail)
    then memcpy c.buffer.bytes c.tail bytes 0 (to_size length)
    else (memcpy c.buffer.bytes c.tail bytes 0 (to_size len) >>= λ d.
        memcpy d 0 bytes len (to_size (sub_int length len)))
  where
    len : ℕ
    len = sub_int c.buffer.capacity c.tail

-- `m_tail` after a `write` of `n` bytes
pub tail_after : Cache → ℕ → ℕ
tail_after c n =
    if le_int n (sub_int c.buffer.capacity c.tail)
    then add_int c.tail n
    else sub_int n (sub_int c.buffer.capacity c.tail)

pub write : Cache → Buffer → Option (ℕ × Cache)
write c buf =
    if rejects c buf.length
    then some (0, c)
    else (copy_in c buf.bytes buf.length >>= λ d.
        let stored = record c.buffer { bytes = d } in
        some (buf.length, record c { buffer = stored; tail = tail_after c buf.length }))
