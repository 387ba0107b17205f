-- ===== src/Buffer/Tests.antt =====
-- RPC_util/buffer.cc: a copy into a buffer that is too small.
use cpp_rpc.Prelude.{ℕ, [], ◌∷◌, Bool, true}
use cpp_rpc.Buffer.{Buffer}

abbrev plenty : ℕ → Bool
plenty n = true

abbrev one : Buffer
one = record { capacity = 1; length = 1; bytes = 9 ∷ [] }
