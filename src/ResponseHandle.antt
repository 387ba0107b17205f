-- ===== src/ResponseHandle.antt =====
-- RPC_client/ResponseHandle.cc: a request that waits for its response or its timeout.
-- All handles share one `Condition`, whose flag each operation gets and gives back. The array `buf` of
-- 2048 bytes is not initialised: what it holds at first is an argument. `read` blocks in the
-- middle, in `m_condition.wait(m_tag)`: what it does once it is woken is `read`, and `wait` is that of
-- the thread pool's file.
pub mod Outcome
pub mod Expiry
mod ExpiryTests
mod Tests
use cpp_rpc.Prelude.{
  ℕ, ◌^◌, Bool, true, false, Option, none, some, List, ◌>>=◌, if◌then◌else◌, ltb, leb,
}
use cpp_rpc.Int32.{of_size, to_size}
use cpp_rpc.Buffer.{Buffer, memcpy}
use cpp_rpc.ThreadPool.{Ready, notify}

pub data State : Type 0 where
  s_waiting s_done s_time_out s_local_cache_full s_server_error s_no_connection : State

pub record ResponseHandle : Type 0 where
  pub buffer : Buffer
  pub state : State
  pub tag : ℕ

unfoldable pub new_response_handle : List ℕ → ℕ → ResponseHandle
new_response_handle buf tag = record {
  buffer = record { capacity = 2048; length = 0; bytes = buf };
  state = s_waiting;
  tag = tag;
}

-- the copy of a response into `m_buffer`, if it fits
unfoldable pub fill : Buffer → List ℕ → ℕ → Option Buffer
fill b buf len =
    if leb len (to_size b.capacity)
    then (memcpy b.bytes 0 buf 0 len >>= λ bytes.
        some (record b { length = of_size len; bytes = bytes }))
    else some b

-- `ResponseHandle::write`: the length that it returns, the handle and the flag
unfoldable pub write : List ℕ → ℕ → ResponseHandle → Ready → Option (ℕ × ResponseHandle × Ready)
write buf len h r = elim h.state [
  | s_time_out ↦ some (0, h, r)
  | _ ↦ fill h.buffer buf len >>= λ b.
      some (len, record h { buffer = b; state = s_done }, notify h.tag r)
]

-- `ResponseHandle::time_out`
unfoldable pub time_out : ResponseHandle → Ready → ResponseHandle × Ready
time_out h r = elim h.state [
  | s_waiting ↦ (record h { state = s_time_out }, notify h.tag r)
  | _ ↦ (h, notify h.tag r)
]

-- `ResponseHandle::read` once it is woken: the number that it returns, and the caller's buffer
unfoldable pub read : List ℕ → ℕ → ResponseHandle → Option (ℕ × List ℕ)
read buf max_len h = elim h.state [
  | s_time_out ↦ some (0, buf)
  | _ ↦
      if ltb (to_size h.buffer.length) max_len
      then (memcpy buf 0 h.buffer.bytes 0 (to_size h.buffer.length) >>= λ bytes.
          some (to_size h.buffer.length, bytes))
      else some (to_size h.buffer.length, buf)
]
