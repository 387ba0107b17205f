-- ===== src/Client/Caches.antt =====
-- The two rings of the client of RPC_client/RPC_client.cc along the histories of Client.Start.
use cpp_rpc.Prelude.{
  ℕ, suc, inl, inr, Bool, Bool-cases, List, [], ◌∷◌, ◌==◌, Holds, Holds-bind, Holds-map, splice,
  length, arith,
}
use cpp_rpc.Int32.{lt_int, of_size}
use cpp_rpc.Buffer.{Buffer}
use cpp_rpc.Cache.{write}
use cpp_rpc.Cache.Inv.{IsValid}
use cpp_rpc.Cache.Keeps.{Keeps, Keeps-self, Keeps-then, write-Keeps}
use cpp_rpc.Package.{write_package}
use cpp_rpc.Package.Keeps.{write_package-Keeps}
use cpp_rpc.Package.Layout.{Header}
use cpp_rpc.Drain.{drain}
use cpp_rpc.Drain.Keeps.{drain-Keeps}
use cpp_rpc.Send.{Answer, Sending, send, fresh_block}
use cpp_rpc.Send.Keeps.{send-Keeps}
use cpp_rpc.IoService.{e_read, e_write, e_rw}
use cpp_rpc.Server.{Received, received_length, received_bytes}
use cpp_rpc.Client.{
  Client, call, begin_request, request_round, dispatch, close_connection, read_socket, write_socket,
}
use cpp_rpc.Client.Start.{
  ClientEvent, notifies, requests, queues, kept_by, notify_socket, step, run,
}

-- both rings are in order
pub record HasRings (c : Client) : Type 0 where
  pub reads : IsValid c.read_cache
  pub writes : IsValid c.write_cache

-- a later client, whose rings are in order and have their sizes
pub record KeepsRings (c c' : Client) : Type 0 where
  pub reads : Keeps c.read_cache c'.read_cache
  pub writes : Keeps c.write_cache c'.write_cache

KeepsRings-self : (c : Client) → HasRings c → KeepsRings c c
KeepsRings-self c v = record { reads = Keeps-self v.reads; writes = Keeps-self v.writes }

KeepsRings-then : {c d e : Client} → KeepsRings c d → KeepsRings d e → KeepsRings c e
KeepsRings-then k l = record {
  reads = Keeps-then k.reads l.reads;
  writes = Keeps-then k.writes l.writes;
}

begin_request-KeepsRings :
    (buf : List ℕ) (tag : ℕ) (c : Client)
    → HasRings c
    → KeepsRings c (kept_by c (begin_request buf tag c))
unfolding begin_request kept_by
begin_request-KeepsRings buf tag c v = elim (Bool-cases (lt_int c.fd 0)) [
  | inl e ↦ rw e (KeepsRings-self c v)
  | inr e ↦ rw e (record { reads = Keeps-self v.reads; writes = Keeps-self v.writes })
]

request_round-KeepsRings :
    (buf : List ℕ) (c : Client) → HasRings c → Holds (KeepsRings c) (request_round buf c)
unfolding request_round call Holds
request_round-KeepsRings buf c v =
    Holds-bind (λ r. Keeps c.write_cache r.1) (KeepsRings c)
      (write_package c.write_cache buf (of_size (length buf))) _
      (write_package-Keeps v.writes buf (of_size (length buf)) (omega arith))
      (λ r q k. record { reads = Keeps-self v.reads; writes = k })

write_socket-KeepsRings :
    (answers : List Answer) (c : Client)
    → HasRings c
    → Holds (λ r. KeepsRings c r.1) (write_socket answers c)
unfolding write_socket call Holds
write_socket-KeepsRings answers c v =
    let w : Sending (Unit {0}) = record {
      tmp = fresh_block;
      sent = [];
      cache = c.write_cache;
      state = tt;
    } in
    Holds-bind (λ w'. Keeps c.write_cache w'.cache) (λ r. KeepsRings c r.1)
      (send (λ n u. u) answers w) _ (send-Keeps (λ n u. u) answers w v.writes)
      (λ w' q k. record { reads = Keeps-self v.reads; writes = k })

module _ (malloc : ℕ → Bool) (response_tag : List ℕ → ℕ) where
  read_socket-KeepsRings :
      (head : Header) (r : Received) (c : Client)
      → HasRings c
      → Holds (KeepsRings c) (read_socket malloc response_tag head r c)
  unfolding read_socket close_connection call Holds
  read_socket-KeepsRings head r c v =
      let len = received_length r in
      let buffer : Buffer = record fresh_block {
        length = of_size len;
        bytes = splice fresh_block.bytes 0 (received_bytes r);
      } in
      let handle = dispatch response_tag in
      Holds-bind (λ w. Keeps c.read_cache w.1) (KeepsRings c) (write c.read_cache buffer) _
        (write-Keeps v.reads buffer (omega arith))
        (λ w q k.
          Holds-bind (λ d. Keeps w.1 d.0) (KeepsRings c)
            (drain malloc handle (suc w.1.buffer.capacity) w.1 head buffer c.waiting) _
            (drain-Keeps malloc handle (suc w.1.buffer.capacity) head buffer c.waiting k.valid)
            (λ d q' l.
              let reads = Keeps-then k l in
              elim (Bool-cases (len == 0)) [
                | inl z ↦ rw z (record { reads = reads; writes = Keeps-self v.writes })
                | inr z ↦ rw z (record { reads = reads; writes = Keeps-self v.writes })
              ]))

  step-KeepsRings :
      (e : ClientEvent) (c : Client)
      → HasRings c
      → Holds (KeepsRings c) (step malloc response_tag e c)
  unfolding step notify_socket Holds
  step-KeepsRings (notifies e_read x) c v = read_socket-KeepsRings x.head x.arrived c v
  step-KeepsRings (notifies e_write x) c v =
      Holds-bind (λ r. KeepsRings c r.1) (KeepsRings c) (write_socket x.answers c) _
        (write_socket-KeepsRings x.answers c v) (λ r q k. k)
  step-KeepsRings (notifies e_rw x) c v = KeepsRings-self c v
  step-KeepsRings (requests buf tag) c v = begin_request-KeepsRings buf tag c v
  step-KeepsRings (queues buf) c v = request_round-KeepsRings buf c v

  -- If both rings of a client are in order, their indices inside blocks of the size that their
  -- capacities tell, they are so again, and as large, after every history of requests, rounds of their
  -- loops and notifications that does not end in a fault, whatever the server sends, whatever is
  -- asked, and whatever the kernel and the allocator answer.
  pub run-KeepsRings :
      (events : List ClientEvent) (c : Client)
      → HasRings c
      → Holds (KeepsRings c) (run malloc response_tag events c)
  unfolding run Holds
  run-KeepsRings [] c v = KeepsRings-self c v
  run-KeepsRings (e ∷ events) c v =
      Holds-bind (KeepsRings c) (KeepsRings c) (step malloc response_tag e c)
        (run malloc response_tag events) (step-KeepsRings e c v)
        (λ c' q k.
          Holds-map (run malloc response_tag events c') (λ c'' l. KeepsRings-then k l)
            (run-KeepsRings events c' (record { reads = k.reads.valid; writes = k.writes.valid })))
