-- ===== src/Send/Tests.antt =====
-- A write cache of sixteen bytes that a socket takes in two parts, and the theorem about the loop there.
use cpp_rpc.Prelude.{ℕ, ◌≡◌, ◌+◌, refl, inr, none, some, List, [], ◌∷◌, ◌++◌, arith, slice}
use cpp_rpc.Cache.{Cache}
use cpp_rpc.Cache.Inv.{IsValid}
use cpp_rpc.Cache.Fifo.{contents, window}
use cpp_rpc.Send.{accepts, fails, Sending, fresh_block, send}
use cpp_rpc.Send.Stream.{IsReady, send_stream, send_fails}

abbrev ring : Cache
ring = record {
  buffer = record { capacity = 6; length = 0; bytes = 1 ∷ 2 ∷ 3 ∷ 4 ∷ 5 ∷ 6 ∷ [] };
  head = 1;
  tail = 5;
}

abbrev start : Sending ℕ
start = record { tmp = fresh_block; sent = []; cache = ring; state = 0 }

abbrev count : ℕ → ℕ → ℕ
count n s = s + n

start-IsReady : IsReady start
start-IsReady = record {
  valid = record {
    storage = refl;
    small = omega arith;
    head_in = omega arith;
    tail_in = omega arith;
    started = inr (omega arith);
  };
  block = refl;
}

send_stream_example :
    (xs : List ℕ) × (w : Sending ℕ) × (send count (accepts 3 ∷ []) start ≡ some w)
    × (w.sent ≡ xs)
    × (contents ring ≡ xs ++ contents w.cache)
    × IsValid w.cache
unfolding contents window slice
send_stream_example = send_stream count (accepts 3 ∷ []) start start-IsReady tt (omega arith)

send_fails_example : send count (fails ∷ []) start ≡ none
unfolding contents window slice
send_fails_example = send_fails count start [] start-IsReady (omega arith)
