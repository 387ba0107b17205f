-- ===== src/Send.antt =====
-- The loop of both `write_socket`s, RPC_server/RequestHandle.cc and RPC_client/RPC_client.cc: show
-- the socket the front of the write cache, and take off it what the socket has accepted.
-- What `write(2)` does is an answer of the kernel for each round: it accepts some number of bytes, or
-- as many as it is offered, or it fails with -1. The list of answers ends the loop at the latest, in
-- a fault. `account` is what a round does with the number that was sent, on a state of its own.
pub mod Stream
pub mod Keeps
pub mod Whole
mod Tests
use cpp_rpc.Prelude.{
  ℕ, Bool, true, false, Option, none, some, List, [], ◌∷◌, ◌++◌, ◌-◌, ◌^◌, min, ◌>>=◌, ◌==◌, ltb,
  not, if◌then◌else◌, slice, replicate,
}
use cpp_rpc.Int32.{of_size}
use cpp_rpc.Buffer.{Buffer}
use cpp_rpc.Cache.{Cache, have_a_look, read}

pub data Answer : Type 0 where
  accepts : ℕ → Answer
  fails : Answer

-- `BLOCK_SIZE`
abbrev pub block_size : ℕ
block_size = 2048

-- `tmp` after `buffer_calloc(tmp, BLOCK_SIZE)`, which is taken to find memory whatever `malloc` does for
-- other blocks
abbrev pub fresh_block : Buffer
fresh_block = record { capacity = block_size; length = 0; bytes = replicate block_size 0 }

-- what `write` returns, as a `size_t`, when it is offered `n` bytes
pub written : Answer → ℕ → ℕ
written (accepts k) n = min k n
written fails n = 2 ^ 64 - 1

-- the bytes that go into the socket
pub accepted : Answer → Buffer → List ℕ
accepted (accepts k) tmp = slice tmp.bytes 0 (min k tmp.length)
accepted fails tmp = []

-- a block for the next round, what is sent, the cache, and the caller's state
pub record Sending (S : Type 0) : Type 0 where
  pub tmp : Buffer
  pub sent : List ℕ
  pub cache : Cache
  pub state : S

module _ {S : Type 0} (account : ℕ → S → S) where
  -- `if(len > 0)`: what was sent is read off the cache
  pub take_sent : ℕ → Sending S → Option (Sending S)
  take_sent len w =
      if ltb 0 len
      then (read w.cache (record (w.tmp) { length = of_size len }) >>= λ (_, tmp, c).
          some (record w { tmp = tmp; cache = c; state = account (of_size len) w.state }))
      else some w

  -- One round: the number that `write` returned, and the state after it.
  pub send_round : Answer → Sending S → Option (ℕ × Sending S)
  send_round a w = do
    (_, tmp) ← have_a_look w.cache (record (w.tmp) { length = block_size })
    let len = written a tmp.length
    w' ← take_sent len (record w { tmp = tmp; sent = w.sent ++ accepted a tmp })
    some (len, w')

  pub send : List Answer → Sending S → Option (Sending S)
  send [] w = none
  send (a ∷ more) w = do
    (len, w') ← send_round a w
    elim (len == block_size) [ true ↦ send more w' | false ↦ some w' ]
