-- ===== src/Client/Tests.antt =====
-- A client with two waiting requests, and the theorems about it there.
use cpp_rpc.Prelude.{
  ℕ, ◌-◌, ◌^◌, Holds, ◌≡◌, refl, inl, Bool, true, none, some, List, [], ◌∷◌, arith, replicate,
  slice,
}
use cpp_rpc.Assoc.{lookup, nat_key}
use cpp_rpc.Cache.{Cache}
use cpp_rpc.Cache.Inv.{IsValid}
use cpp_rpc.Cache.Fifo.{contents, window}
use cpp_rpc.Package.Layout.{Header, header_bytes, int_bytes}
use cpp_rpc.Drain.Packages.{frames, handle_all}
use cpp_rpc.ThreadPool.{tag, unset, wait}
use cpp_rpc.Server.{received}
use cpp_rpc.ResponseHandle.{new_response_handle}
use cpp_rpc.Client.{Client, Waiting, dispatch, read_socket}
use cpp_rpc.IoService.{e_read, e_write}
use cpp_rpc.Send.{accepts}
use cpp_rpc.Client.Caches.{KeepsRings, run-KeepsRings}
use cpp_rpc.Client.Start.{new_client, Socket, notifies, requests, queues, run, Refuses, run-Refuses}
use cpp_rpc.Client.Responses.{read_socket-dispatch, dispatch_hides}

abbrev plenty : ℕ → Bool
plenty n = true

-- the tag of a response is its first byte
abbrev first : List ℕ → ℕ
first [] = 0
first (x ∷ xs) = x

abbrev empty : Cache
empty = record {
  buffer = record { capacity = 40; length = 0; bytes = replicate 40 0 };
  head = 0;
  tail = 0;
}

empty-IsValid : IsValid empty
empty-IsValid = record {
  storage = refl;
  small = omega arith;
  head_in = omega arith;
  tail_in = omega arith;
  started = inl refl;
}

abbrev block : List ℕ
block = replicate 2048 0

abbrev both : Waiting
both = record {
  response_handles = (7, 0) ∷ (8, 1) ∷ [];
  handles = new_response_handle block 7 ∷ new_response_handle block 8 ∷ [];
  ready = tag 7;
}

abbrev client : Client
client = record { read_cache = empty; write_cache = empty; fd = 5; waiting = both; calls = [] }

abbrev no_header : Header
no_header = record { magic = 0; length = 0 }

-- a response that nobody waits for, and the start of another
abbrev stream : List ℕ
stream = 0xd5 ∷ 0xc4 ∷ 0xb3 ∷ 0xa2 ∷ 1 ∷ 0 ∷ 0 ∷ 0 ∷ 9 ∷ 0xd5 ∷ []

read_socket-dispatch_example :
    (c : Cache) × (read_socket plenty first no_header (received stream) client
      ≡ some (record client { read_cache = c; waiting = both }))
    × (contents c ≡ 0xd5 ∷ [])
    × IsValid c
    × (c.buffer.capacity ≡ 40)
unfolding contents window slice frames handle_all header_bytes int_bytes dispatch lookup
read_socket-dispatch_example =
    read_socket-dispatch plenty (λ n. refl) first no_header client stream ((9 ∷ []) ∷ [])
      (0xd5 ∷ []) both empty-IsValid (omega arith) (omega arith) (omega arith) refl
      (inl (omega arith)) refl

dispatch_hides_example :
    (w : Waiting) × (dispatch first (8 ∷ []) both ≡ some w) × (wait 7 w.ready ≡ none)
unfolding lookup new_response_handle
dispatch_hides_example =
    dispatch_hides first (8 ∷ []) both 1 7 8 (new_response_handle block 8).buffer refl refl
      (record { whole = refl; room = refl; fits = omega arith }) (λ e. absurd (omega (arith, e)))

-- a client that found no server
abbrev alone : Client
alone = new_client plenty 40 (2 ^ 32 - 1) true unset

abbrev takes : Socket
takes = record { head = no_header; arrived = received (1 ∷ 2 ∷ []); answers = accepts 5 ∷ [] }

run-Refuses_example : Holds Refuses (
    run plenty first
      (requests (1 ∷ []) 7 ∷ notifies e_read takes ∷ notifies e_write takes ∷ [])
      alone)
unfolding new_client
run-Refuses_example =
    run-Refuses plenty first
      (requests (1 ∷ []) 7 ∷ notifies e_read takes ∷ notifies e_write takes ∷ []) alone refl

-- Two rounds of a request, and a client whose takes sends them and brings some bytes.
run-KeepsRings_example : Holds (KeepsRings client) (
    run plenty first
      (queues (1 ∷ []) ∷ queues (1 ∷ []) ∷ notifies e_write takes ∷ notifies e_read takes ∷ [])
      client)
run-KeepsRings_example =
    run-KeepsRings plenty first
      (queues (1 ∷ []) ∷ queues (1 ∷ []) ∷ notifies e_write takes ∷ notifies e_read takes ∷ [])
      client (record { reads = empty-IsValid; writes = empty-IsValid })
