-- ===== src/Client/Start.antt =====
-- RPC_client/RPC_client.cc: the client's connection from the constructor on, and the client without one.
-- What the kernel's calls return is an argument, or a parameter on its state `K`.
use cpp_rpc.Prelude.{
  ℕ, suc, ◌-◌, ◌^◌, ◌≡◌, refl, ◌⊎◌, inl, inr, Bool, Bool-cases, Option, none, some, List, [], ◌∷◌,
  ◌>>=◌, ◌==◌, if◌then◌else◌, Holds, Holds-then, Holds-bind, splice, length,
}
use cpp_rpc.Int32.{lt_int, of_size}
use cpp_rpc.Buffer.{Buffer}
use cpp_rpc.Cache.{new_cache, write}
use cpp_rpc.Drain.{drain}
use cpp_rpc.Package.{write_package}
use cpp_rpc.Package.Layout.{Header}
use cpp_rpc.Send.{Answer, fresh_block, send}
use cpp_rpc.ThreadPool.{Ready}
use cpp_rpc.IoService.{Event, e_read, e_write, e_rw}
use cpp_rpc.ResponseHandle.{
  State, s_waiting, s_done, s_time_out, s_local_cache_full, s_server_error, s_no_connection,
}
use cpp_rpc.Server.{Received, received_length, received_bytes}
use cpp_rpc.Client.{
  Client, registers, modify_read, call, dispatch, begin_request, request_round, close_connection,
  read_socket, write_socket,
}
use Prim.Native.String.{String}

-- `none` is the end of a function without a value.
unfoldable pub error_string : State → Option String
error_string s_done = some "request done"
error_string s_time_out = some "request time out"
error_string s_local_cache_full = some "local cache full,reject request"
error_string s_server_error = some "RPC server error"
error_string s_no_connection = some "RPC server disconnect"
error_string s_waiting = none

-- What `socket` returns is not tested.
unfoldable pub connect_to_server : {K : Type 0} → (K → ℕ × K) → (ℕ → K → Bool × K) → K → ℕ × K
connect_to_server socket connect k =
    let (fd, k1) = socket k in
    let (connected, k2) = connect fd k1 in if connected then (fd, k2) else (2 ^ 32 - 1, k2)

-- The constructor, with the descriptor from `connect_to_server` and whether `register_io` succeeds.
unfoldable pub new_client : (ℕ → Bool) → ℕ → ℕ → Bool → Ready → Client
new_client malloc cache_size fd registered ready =
    let c : Client = record {
      read_cache = new_cache malloc cache_size;
      write_cache = new_cache malloc cache_size;
      fd = fd;
      waiting = record { response_handles = []; handles = []; ready = ready };
      calls = [];
    } in
    if lt_int 0 fd
    then (if registered
        then call modify_read (call registers c)
        else close_connection (call registers c))
    else c

-- what the handlers find when they are called: what has arrived, and what the socket takes
pub record Socket : Type 0 where
  pub head : Header
  pub arrived : Received
  pub answers : List Answer

-- a call of a handler, the beginning of a request, which may throw, or a round of its loop
pub data ClientEvent : Type 0 where
  notifies : Event → Socket → ClientEvent
  requests : List ℕ → ℕ → ClientEvent
  queues : List ℕ → ClientEvent

unfoldable pub kept_by : Client → State ⊎ Client → Client
kept_by c (inl e) = c
kept_by c (inr c') = c'

abbrev pub IsClosed : Client → Type 0
IsClosed c = c.fd ≡ 2 ^ 32 - 1

-- what a closed connection means for every request
pub record Refuses (c : Client) : Type 0 where
  pub closed : IsClosed c
  pub thrown : (buf : List ℕ) (tag : ℕ) → begin_request buf tag c ≡ inl s_no_connection

closed-Refuses : (c : Client) → IsClosed c → Refuses c
unfolding begin_request
closed-Refuses c closed = record { closed = closed; thrown = λ buf tag. rw closed refl }

module _ (malloc : ℕ → Bool) (response_tag : List ℕ → ℕ) where
  unfoldable pub notify_socket : Event → Socket → Client → Option Client
  notify_socket e_read x c = read_socket malloc response_tag x.head x.arrived c
  notify_socket e_write x c = write_socket x.answers c >>= λ (_, c'). some c'
  notify_socket e_rw x c = some c

  unfoldable pub step : ClientEvent → Client → Option Client
  step (notifies e x) c = notify_socket e x c
  step (requests buf tag) c = some (kept_by c (begin_request buf tag c))
  step (queues buf) c = request_round buf c

  unfoldable pub run : List ClientEvent → Client → Option Client
  run [] c = some c
  run (e ∷ events) c = step e c >>= run events

  read_socket-IsClosed :
      (head : Header) (r : Received) (c : Client)
      → IsClosed c
      → Holds IsClosed (read_socket malloc response_tag head r c)
  unfolding read_socket close_connection call Holds
  read_socket-IsClosed head r c closed =
      let len = received_length r in
      let buffer : Buffer = record fresh_block {
        length = of_size len;
        bytes = splice fresh_block.bytes 0 (received_bytes r);
      } in
      Holds-then IsClosed (write c.read_cache buffer) _ (λ w q.
        Holds-then IsClosed
          (drain malloc (dispatch response_tag) (suc w.1.buffer.capacity) w.1 head buffer c.waiting)
          _ (λ d q'. elim (Bool-cases (len == 0)) [ inl z ↦ rw z refl | inr z ↦ rw z closed ]))

  write_socket-IsClosed :
      (answers : List Answer) (c : Client)
      → IsClosed c
      → Holds (λ r. IsClosed r.1) (write_socket answers c)
  unfolding write_socket call Holds
  write_socket-IsClosed answers c closed =
      Holds-then (λ r. IsClosed r.1) (send (λ n u. u) answers _) _ (λ w q. closed)

  step-IsClosed : (e : ClientEvent) (c : Client) → IsClosed c → Holds IsClosed (step e c)
  unfolding step notify_socket kept_by begin_request request_round call Holds
  step-IsClosed (notifies e_read x) c closed = read_socket-IsClosed x.head x.arrived c closed
  step-IsClosed (notifies e_write x) c closed =
      Holds-bind (λ r. IsClosed r.1) IsClosed (write_socket x.answers c) _
        (write_socket-IsClosed x.answers c closed) (λ r q k. k)
  step-IsClosed (notifies e_rw x) c closed = closed
  step-IsClosed (requests buf tag) c closed = rw closed refl
  step-IsClosed (queues buf) c closed =
      Holds-then IsClosed (write_package c.write_cache buf (of_size (length buf))) _ (λ w q. closed)

  -- A client whose connection is closed, or was never opened, stays so in every history of events that does
  -- not end in a fault, and throws at every request after it.
  pub run-Refuses :
      (events : List ClientEvent) (c : Client) → IsClosed c → Holds Refuses (run events c)
  unfolding run Holds
  run-Refuses [] c closed = closed-Refuses c closed
  run-Refuses (e ∷ events) c closed =
      Holds-bind IsClosed Refuses (step e c) (run events) (step-IsClosed e c closed)
        (λ c' q k. run-Refuses events c' k)
