-- ===== src/Drain.antt =====
-- The loop that both `read_socket`s run, RPC_server/RequestHandle.cc and RPC_client/RPC_client.cc:
-- take packages off the read cache while there are any, and hand each payload on.
-- `handle` is what the loop does with a payload, on a state of its own; `none` is a fault. The loop
-- is a recursion on fuel, and one that runs out of it ends in a fault too. A round that goes on takes
-- the eight bytes of a header at least.
pub mod Packages
pub mod Keeps
mod Tests
use cpp_rpc.Prelude.{
  ℕ, zero, suc, Bool, true, false, Option, none, some, List, ◌>>=◌, if◌then◌else◌, slice,
}
use cpp_rpc.Buffer.{Buffer}
use cpp_rpc.Cache.{Cache}
use cpp_rpc.Package.{read_package}
use cpp_rpc.Package.Layout.{Header}

-- the bytes that `handle_request(buffer.data, buffer.length)` and the like see
abbrev pub payload : Buffer → List ℕ
payload b = slice b.bytes 0 b.length

module _ (malloc : ℕ → Bool) {S : Type 0} (handle : List ℕ → S → Option S) where
  pub drain : ℕ → Cache → Header → Buffer → S → Option (Cache × Buffer × S)
  drain zero c head buffer s = none
  drain (suc fuel) c head buffer s = do
    (found, h, b, c') ← read_package malloc c head buffer
    elim found [
      | true ↦ handle (payload b) s >>= λ s'. drain fuel c' h b s'
      | false ↦ some (c', b, s)
    ]
