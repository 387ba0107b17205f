-- ===== src/Server/Caches.antt =====
-- The rings of the server's connections along the histories of Server.Events.
use cpp_rpc.Prelude.{
  ℕ, suc, ◌-◌, ◌≡◌, ◌^◌, refl, sym, ap, ◌∙◌, inl, inr, Bool, true, false, Bool-cases, Option-cases,
  none, some, List, [], ◌∷◌, ◌++◌, ◌==◌, if◌then◌else◌, Holds, Holds-bind, Holds-then, Holds_some,
  arith, length, splice,
}
use mathlib.Core.Path.{subst}
use mathlib.Core.Option.{some-injective}
use cpp_rpc.Int32.{lt_int, le_int, of_size}
use cpp_rpc.Assoc.{lookup, string_key}
use cpp_rpc.Buffer.{Buffer}
use cpp_rpc.Cache.{new_cache, write}
use cpp_rpc.Cache.Keeps.{Keeps, write-Keeps, new_cache-IsValid_any}
use cpp_rpc.Package.Layout.{Header}
use cpp_rpc.Drain.{drain}
use cpp_rpc.Drain.Keeps.{drain_keeps, drain-Keeps}
use cpp_rpc.Send.{fresh_block}
use cpp_rpc.IoService.{Flag, Op, e_rw, register_io}
use cpp_rpc.Monitor.{recv_bytes}
use cpp_rpc.Server.{
  RequestHandle, notify_socket_callback, Server, Received, received_length, received_bytes, object,
  store, enqueue, drop_client, close_fd, handle_request, write_socket, close_connection,
  new_request_handle, set_delete_handle, new_connection, read_socket,
}
use cpp_rpc.Server.Events.{Event, connects, reads, writes, works, readable, step, run}
use cpp_rpc.Server.Rings.{
  get_elem?-append_cases, IsSound, HasRings, HasRings-same, HasRings-store, HasRings-put,
  object-IsSound,
}
use Prim.Native.String.{String}
use cpp_rpc.Server.Answers.{run_first-HasRings, write_socket-HasRings}

module _ {K : Type 0} where
  -- what the handler of a request leaves alone
  record SameHeap (s s' : Server K) : Type 0 where
    heap : s'.heap ≡ s.heap
    size : s'.cache_size ≡ s.cache_size

  handle_request-SameHeap :
      (parse : List ℕ → String) (h : ℕ) (bytes : List ℕ) (s s' : Server K)
      → SameHeap s s'
      → Holds (SameHeap s) (handle_request parse h bytes s')
  unfolding handle_request Holds enqueue
  handle_request-SameHeap parse h bytes s s' u =
      elim (Option-cases (lookup (parse bytes) s'.rpc_funcs)) [
        | inl e ↦ rw (handle_request, e) (record { heap = u.heap; size = u.size })
        | inr (f, e) ↦ rw (handle_request, e) (record { heap = u.heap; size = u.size })
      ]

  module _ (epoll_ctl : Op → ℕ → List Flag → K → Bool × K) (close : ℕ → K → K) where
    close_connection-HasRings :
        (h : ℕ) (x : RequestHandle) (s : Server K)
        → HasRings s
        → IsSound x
        → HasRings (close_connection epoll_ctl close h x s)
    unfolding close_connection close_fd drop_client
    close_connection-HasRings h x s c sound =
        let closed : RequestHandle = record x { fd = 2 ^ 32 - 1; held = false } in
        let kept : IsSound closed = record { reads = sound.reads; writes = sound.writes } in
        HasRings-store h (if x.held then none else some closed) (HasRings-same c refl refl) (λ y e.
          elim (Bool-cases x.held) [
            | inl b ↦ absurd (ground (arith, b, e))
            | inr b ↦
                subst IsSound
                  (some-injective closed y (sym (ap (λ b. if b then none else some closed) b) ∙ e))
                  kept
          ])

    module _ (malloc : ℕ → Bool) where
      new_request_handle-HasRings :
          (fd : ℕ) (s : Server K)
          → HasRings s
          → HasRings (new_request_handle epoll_ctl close malloc fd s)
      unfolding new_request_handle
      new_request_handle-HasRings fd s c =
          let h = length s.heap in
          let x : RequestHandle = record {
            fd = fd;
            held = false;
            read_cache = new_cache malloc s.cache_size;
            write_cache = new_cache malloc s.cache_size;
          } in
          let valid = new_cache-IsValid_any malloc s.cache_size c.small in
          let sound : IsSound x = record { reads = valid; writes = valid } in
          let r = register_io epoll_ctl s.io_service fd e_rw (some (notify_socket_callback h)) in
          let s1 : Server K = record s { heap = s.heap ++ some x ∷ []; io_service = r.1 } in
          let made : HasRings s1 = record {
            small = c.small;
            sound = λ i y e. elim (get_elem?-append_cases s.heap i (some x) y e) [
              | inl new ↦ subst IsSound (some-injective x y new) sound
              | inr old ↦ c.sound i y old
            ];
          } in
          elim (Bool-cases r.0) [
            | inl ok ↦ rw ok made
            | inr no_io ↦ rw no_io (close_connection-HasRings h x s1 made sound)
          ]

      set_delete_handle-HasRings :
          (h : ℕ) (s : Server K)
          → HasRings s
          → Holds HasRings (set_delete_handle epoll_ctl close h s)
      unfolding set_delete_handle Holds
      set_delete_handle-HasRings h s c = Holds-then HasRings (object h s) _ (λ x e.
          let old = object-IsSound h s x c e in
          HasRings-put h (record x { held = true }) c
            (record { reads = old.reads; writes = old.writes }))

      new_connection-HasRings :
          (fd : ℕ) (s : Server K)
          → HasRings s
          → Holds HasRings (new_connection epoll_ctl close malloc fd s)
      unfolding new_connection Holds close_fd
      new_connection-HasRings fd s c = elim (Bool-cases (lt_int 0 fd)) [
        | inl p ↦ elim (Bool-cases (le_int s.max_client_count s.clients)) [
          | inl full ↦ rw (p, full) (HasRings-same c refl refl)
          | inr room ↦
              rw (p, room)
                (Holds-bind HasRings HasRings
                  (set_delete_handle epoll_ctl close (length s.heap)
                    (new_request_handle epoll_ctl close malloc fd s))
                  _
                  (set_delete_handle-HasRings (length s.heap)
                    (new_request_handle epoll_ctl close malloc fd s)
                    (new_request_handle-HasRings fd s c))
                  (λ s' q c'. HasRings-same c' refl refl))
        ]
        | inr p ↦ rw p c
      ]

      module _ (parse : List ℕ → String) where
        read_socket-HasRings :
            (h : ℕ) (head : Header) (r : Received) (s : Server K)
            → HasRings s
            → Holds HasRings (read_socket epoll_ctl close malloc parse h head r s)
        unfolding read_socket Holds
        read_socket-HasRings h head r s c =
            let len = received_length r in
            let s1 = record s { monitor = recv_bytes s.monitor (of_size len) } in
            let buffer : Buffer = record fresh_block {
              length = of_size len;
              bytes = splice fresh_block.bytes 0 (received_bytes r);
            } in
            Holds-then HasRings (object h s) _ (λ x e.
              let old = object-IsSound h s x c e in
              Holds-bind (λ w. Keeps x.read_cache w.1) HasRings (write x.read_cache buffer) _
                (write-Keeps old.reads buffer (omega arith))
                (λ w q k.
                  let fuel = suc w.1.buffer.capacity in
                  let handle = handle_request parse h in
                  Holds-then HasRings (drain malloc handle fuel w.1 head buffer s1) _ (λ d q'.
                    let same : SameHeap s d.2 =
                      Holds_some (λ d. SameHeap s d.2) (drain malloc handle fuel w.1 head buffer s1)
                        d q'
                        (drain_keeps malloc handle (SameHeap s)
                          (λ bytes s' u. handle_request-SameHeap parse h bytes s s' u) fuel w.1 head
                          buffer s1 (record { heap = refl; size = refl })) in
                    let k2 : Keeps w.1 d.0 =
                      Holds_some (λ d. Keeps w.1 d.0) (drain malloc handle fuel w.1 head buffer s1)
                        d q' (drain-Keeps malloc handle fuel head buffer s1 k.valid) in
                    let x' : RequestHandle = record x { read_cache = d.0 } in
                    let sound : IsSound x' = record { reads = k2.valid; writes = old.writes } in
                    let kept = HasRings-put h x' (HasRings-same c same.heap same.size) sound in
                    elim (Bool-cases (len == 0)) [
                      | inl z ↦
                          rw z (close_connection-HasRings h x' (store h (some x') d.2) kept sound)
                      | inr z ↦ rw z kept
                    ])))

        step-HasRings :
            (e : Event) (s : Server K)
            → HasRings s
            → Holds HasRings (step epoll_ctl close malloc parse e s)
        unfolding step Holds
        step-HasRings (connects fd) s c = new_connection-HasRings fd s c
        step-HasRings (reads h head r) s c =
            elim (Bool-cases (readable epoll_ctl close malloc parse h s)) [
              | inl p ↦ rw p (read_socket-HasRings h head r s c)
              | inr p ↦ rw p c
            ]
        step-HasRings (writes h answers) s c =
            elim (Bool-cases (readable epoll_ctl close malloc parse h s)) [
              | inl p ↦ rw p (
                  Holds-bind (λ r. HasRings r.1) HasRings (write_socket h answers s) _
                    (write_socket-HasRings h answers s c) (λ r q c'. c'))
              | inr p ↦ rw p c
            ]
        step-HasRings works s c = run_first-HasRings s.tasks s c

        -- If the two rings of every connection are in order, their indices inside blocks of the size that
        -- their capacities tell, and the size of a new ring is below 2 ^ 31, then all this holds again
        -- after every history of connections, reads, writes and tasks that does not end in a fault, whatever
        -- bytes the clients send, whatever the functions return, and whatever the kernel and the allocator
        -- answer.
        pub run-HasRings :
            (events : List Event) (s : Server K)
            → HasRings s
            → Holds HasRings (run epoll_ctl close malloc parse events s)
        unfolding run Holds
        run-HasRings [] s c = c
        run-HasRings (e ∷ events) s c =
            Holds-bind HasRings HasRings (step epoll_ctl close malloc parse e s)
              (run epoll_ctl close malloc parse events) (step-HasRings e s c)
              (λ s' q c'. run-HasRings events s' c')
