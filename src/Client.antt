-- ===== src/Client.antt =====
-- RPC_client/RPC_client.cc: the client's requests, its socket, and the table of waiting requests.
-- The parser of a response with `ClientService::hash` behind it is a parameter, `response_tag`, and so
-- are `epoll_ctl` and `close`. `send_request` is split where it blocks, at its first loop and in
-- `handle->read`; an exception is the `State` whose text it carries.
pub mod Requests
pub mod Responses
pub mod Start
pub mod Caches
mod Tests
use cpp_rpc.Prelude.{
  ℕ, zero, suc, ◌-◌, ◌^◌, ◌⊎◌, inl, inr, Bool, true, false, Option, none, some, List, [], ◌∷◌, ◌++◌,
  ◌>>=◌, ◌==◌, if◌then◌else◌, length, get_elem?, set, splice,
}
use cpp_rpc.Int32.{lt_int, of_size}
use cpp_rpc.Assoc.{lookup, insert, erase, nat_key}
use cpp_rpc.Buffer.{Buffer}
use cpp_rpc.Cache.{Cache, write}
use cpp_rpc.Package.{write_package}
use cpp_rpc.Package.Layout.{Header}
use cpp_rpc.Drain.{drain}
use cpp_rpc.Send.{Answer, Sending, fresh_block, send}
use cpp_rpc.ThreadPool.{Ready}
use cpp_rpc.ResponseHandle.{
  State, s_no_connection, s_local_cache_full, s_time_out, ResponseHandle, new_response_handle,
}
use cpp_rpc.Server.{Received, received_length, received_bytes}

-- `m_response_handles`, the handles that it points at, and the flag of `m_condition`
pub record Waiting : Type 0 where
  pub response_handles : List (ℕ × ℕ)
  pub handles : List ResponseHandle
  pub ready : Ready

-- the kernel's calls on the client's socket
pub data Call : Type 0 where
  registers modify_read modify_read_write unregisters closes : ℕ → Call

-- `ClientService`: `calls` lists what it asked of the kernel, the last first
pub record Client : Type 0 where
  pub read_cache : Cache
  pub write_cache : Cache
  pub fd : ℕ
  pub waiting : Waiting
  pub calls : List Call

unfoldable pub call : (ℕ → Call) → Client → Client
call f c = record c { calls = f c.fd ∷ c.calls }

-- `send_request` up to its first loop; `buf` is what the handle's array holds at first
unfoldable pub begin_request : List ℕ → ℕ → Client → State ⊎ Client
begin_request buf tag c =
    if lt_int c.fd 0
    then inl s_no_connection
    else inr (record c {
      waiting = record (c.waiting) {
        response_handles = insert tag (length c.waiting.handles) c.waiting.response_handles;
        handles = c.waiting.handles ++ new_response_handle buf tag ∷ [];
      };
    })

-- a round of the loop `while(1)`, which nothing leaves
unfoldable pub request_round : List ℕ → Client → Option Client
request_round buf c = write_package c.write_cache buf (of_size (length buf)) >>= λ (_, w).
    some (call modify_read_write (record c { write_cache = w }))

pub request_rounds : ℕ → List ℕ → Client → Option Client
request_rounds zero buf c = some c
request_rounds (suc n) buf c = request_round buf c >>= request_rounds n buf

-- what stands behind the loop: the write that is checked, and what the length from `read` means
pub write_request : List ℕ → Client → Option (State ⊎ Client)
write_request buf c = write_package c.write_cache buf (of_size (length buf)) >>= λ (written, w).
    some (
      if written
      then inr (call modify_read_write (record c { write_cache = w }))
      else inl s_local_cache_full)

unfoldable pub end_request : ℕ → State ⊎ ℕ
end_request len = if len == 0 then inl s_time_out else inr len

-- A response goes to the handle that waits under its tag, which leaves the table; one that nobody
-- waits for is dropped.
unfoldable pub dispatch : (List ℕ → ℕ) → List ℕ → Waiting → Option Waiting
dispatch response_tag buf w = elim (lookup (response_tag buf) w.response_handles) [
  | none ↦ some w
  | some i ↦ get_elem? w.handles i >>= λ h.
      cpp_rpc.ResponseHandle.write buf (length buf) h w.ready >>= λ (_, h', r). some (record {
        response_handles = erase (response_tag buf) w.response_handles;
        handles = set w.handles i h';
        ready = r;
      })
]

unfoldable pub close_connection : Client → Client
close_connection c = record (call closes (call unregisters c)) { fd = 2 ^ 32 - 1 }

-- One round of the loop for every byte that the cache can hold is enough.
unfoldable pub read_socket : (ℕ → Bool) → (List ℕ → ℕ) → Header → Received → Client → Option Client
read_socket malloc response_tag head r c = do
  let len = received_length r
  let bytes = splice fresh_block.bytes 0 (received_bytes r)
  let buffer = record fresh_block { length = of_size len; bytes = bytes }
  (_, rc) ← write c.read_cache buffer
  (rc', _, w) ←
      drain malloc (dispatch response_tag) (suc rc.buffer.capacity) rc head buffer c.waiting
  let c' = record c { read_cache = rc'; waiting = w }
  some (if len == 0 then close_connection c' else c')

unfoldable pub write_socket : List Answer → Client → Option (List ℕ × Client)
write_socket answers c = do
  let w : Sending (Unit {0}) = record {
    tmp = fresh_block;
    sent = [];
    cache = c.write_cache;
    state = tt;
  }
  w' ← send (λ n u. u) answers w
  some (w'.sent, call modify_read (record c { write_cache = w'.cache }))
