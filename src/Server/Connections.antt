-- ===== src/Server/Connections.antt =====
-- A connection of RPC_server/RPC_server.cc that opens or closes, and the number of clients.
use cpp_rpc.Prelude.{
  ℕ, ◌-◌, ◌≤◌, ◌<◌, ◌≡◌, ◌^◌, refl, inl, inr, Bool, true, false, Bool-cases, none, some, List, [],
  ◌∷◌, ◌++◌, ◌>>=◌, arith, Holds, length, get_elem?, get_elem?-last, get_elem?-set,
}
use cpp_rpc.Int32.{lt_int, le_int, add_int}
use cpp_rpc.Assoc.{string_key}
use cpp_rpc.Cache.{new_cache}
use cpp_rpc.IoService.{Flag, Op, e_rw, register_io, unregister_io}
use cpp_rpc.Monitor.{add_connections, remove_connections}
use cpp_rpc.Server.{
  RequestHandle, notify_socket_callback, Server, object, store, drop_client, close_fd,
  close_connection, new_request_handle, set_delete_handle, new_connection,
}
use cpp_rpc.Server.Counts.{
  is_open, open_count, open_count-set, open_count-append, IsCounted, IsCounted-same,
  drop_client-open,
}

module _ {K : Type 0} (epoll_ctl : Op → ℕ → List Flag → K → Bool × K) (close : ℕ → K → K) where
  pub close_connection-IsCounted :
      (h : ℕ) (x : RequestHandle) (s : Server K)
      → IsCounted s
      → get_elem? s.heap h ≡ some (some x)
      → lt_int 0 x.fd ≡ true
      → IsCounted (close_connection epoll_ctl close h x s)
  unfolding close_connection close_fd is_open store drop_client
  close_connection-IsCounted h x s c e p =
      let (ok, io) = unregister_io epoll_ctl s.io_service x.fd e_rw in
      elim (Bool-cases x.held) [
        | inl q ↦ rw q (
            IsCounted-same (drop_client-open s h (some x) none c e (rw p) refl) refl refl refl refl)
        | inr q ↦ rw q (
            IsCounted-same
              (drop_client-open s h (some x) (some (record x { fd = 2 ^ 32 - 1; held = false })) c e
                (rw p) refl)
              refl refl refl refl)
      ]

  -- the new object, and the counters once they are raised
  record Added (s s1 : Server K) (fd : ℕ) : Type 0 where
    x : RequestHandle
    object : get_elem? s1.heap (length s.heap) ≡ some (some x)
    clients : add_int s1.clients 1 ≡ open_count s1.heap
    monitored : (add_connections s1.monitor 1).connections ≡ open_count s1.heap
    bounded : open_count s1.heap ≤ s.max_client_count
    bound : s1.max_client_count ≡ s.max_client_count

  new_request_handle-Added :
      (malloc : ℕ → Bool) (fd : ℕ) (s : Server K)
      → IsCounted s
      → lt_int 0 fd ≡ true
      → s.clients < s.max_client_count
      → Added s (new_request_handle epoll_ctl close malloc fd s) fd
  unfolding new_request_handle close_connection close_fd store drop_client is_open open_count
      add_connections remove_connections
  new_request_handle-Added malloc fd s c p l =
      let x : RequestHandle = record {
        fd = fd;
        held = false;
        read_cache = new_cache malloc s.cache_size;
        write_cache = new_cache malloc s.cache_size;
      } in
      let y : RequestHandle = record x { fd = 2 ^ 32 - 1 } in
      let here = get_elem?-last s.heap (some x) in
      let more = open_count-append s.heap (some x ∷ []) in
      let less = open_count-set (s.heap ++ some x ∷ []) (length s.heap) (some x) (some y) here in
      let (ok, io) =
        register_io epoll_ctl s.io_service fd e_rw
          (some (notify_socket_callback (length s.heap))) in
      elim (Bool-cases ok) [
        | inl q ↦ rw q (record {
          x = x;
          object = here;
          clients = ground (arith, more, c.clients, c.small, p);
          monitored = ground (arith, more, c.monitored, c.bounded, c.small, p);
          bounded = ground (arith, more, c.clients, p);
          bound = refl;
        })
        | inr q ↦ rw q (record {
          x = y;
          object = get_elem?-set (s.heap ++ some x ∷ []) (length s.heap) (some x) (some y) here;
          clients = ground (arith, more, less, c.clients, c.small, p);
          monitored = ground (arith, more, less, c.monitored, c.bounded, c.small, p);
          bounded = ground (arith, more, less, c.clients, p);
          bound = refl;
        })
      ]

  Added-IsCounted :
      (malloc : ℕ → Bool) (fd : ℕ) (s : Server K)
      → IsCounted s
      → lt_int 0 fd ≡ true
      → le_int s.max_client_count s.clients ≡ false
      → Added s (new_request_handle epoll_ctl close malloc fd s) fd
      → Holds IsCounted (new_connection epoll_ctl close malloc fd s)
  unfolding Holds new_connection set_delete_handle object store is_open
  Added-IsCounted malloc fd s c q f a =
      let s1 = new_request_handle epoll_ctl close malloc fd s in
      let y : RequestHandle = record (a.x) { held = true } in
      let same = open_count-set s1.heap (length s.heap) (some a.x) (some y) a.object in
      rw (q, f, a.object, ◌>>=◌)
        (record {
          clients = omega (arith, same, a.clients);
          monitored = omega (arith, same, a.monitored);
          bounded = omega (arith, same, a.bounded, a.bound);
          small = rw a.bound c.small;
        })

  pub new_connection-IsCounted :
      (malloc : ℕ → Bool) (fd : ℕ) (s : Server K)
      → IsCounted s
      → Holds IsCounted (new_connection epoll_ctl close malloc fd s)
  unfolding Holds new_connection close_fd set_delete_handle object
  new_connection-IsCounted malloc fd s c = elim (Bool-cases (lt_int 0 fd)) [
    | inr q ↦ rw q c
    | inl q ↦ elim (Bool-cases (le_int s.max_client_count s.clients)) [
      | inl f ↦ rw (q, f) (IsCounted-same c refl refl refl refl)
      | inr f ↦
          let a =
            new_request_handle-Added malloc fd s c q
              (ground (arith, f, c.clients, c.bounded, c.small)) in
          Added-IsCounted malloc fd s c q f a
    ]
  ]
