-- ===== src/Server/Start.antt =====
-- RPC_server/RPC_server.cc: the listening socket, and the service from its construction on.
-- The calls `socket`, `bind` and `listen` are parameters on the kernel's state: the descriptor, a negative
-- one for a failure, or whether the call succeeded.
use cpp_rpc.Prelude.{
  ℕ, ◌-◌, ◌^◌, ◌≡◌, ◌∙◌, refl, Bool, false, Bool-cases, inl, inr, Option, some, none, List, [],
  arith, ◌&&◌, if◌then◌else◌,
}
use cpp_rpc.Int32.{lt_int}
use cpp_rpc.IoService.{
  Event, e_read, e_write, e_rw, Flag, Op, epoll_ctl_add, IoService, epoll_event, register_io,
  add_event,
}
use cpp_rpc.IoService.Callbacks.{find, covers, taken, register_io_lem}
use cpp_rpc.Monitor.{new_monitor}
use cpp_rpc.Server.{Server, Callback, new_connection_callback, new_connection}

-- the service with `m_fd`
pub record Service (K : Type 0) : Type 0 where
  pub server : Server K
  pub fd : ℕ

module _ {K : Type 0} where
  -- A new service before its socket is opened. The monitor's last two fields are not initialised.
  unfoldable pub new_server : ℕ → ℕ → ℕ → ℕ → K → Server K
  new_server max_client_count cache_size queued running k = record {
    io_service = record { callback_map = []; kernel = k; exit = false };
    rpc_funcs = [];
    max_client_count = max_client_count;
    cache_size = cache_size;
    monitor = new_monitor queued running;
    clients = 0;
    tasks = [];
    running_workers = 0;
    heap = [];
  }

  -- what `accept` returns on the listening socket
  unfoldable pub accept_connection : (ℕ → K → ℕ × K) → ℕ → Server K → ℕ × Server K
  accept_connection accept fd s =
      let (client_fd, k) = accept fd s.io_service.kernel in
      (client_fd, record s { io_service = record (s.io_service) { kernel = k } })

  -- the callback of the listening socket
  unfoldable pub accept_new :
      (Op → ℕ → List Flag → K → Bool × K)
      → (ℕ → K → K)
      → (ℕ → K → ℕ × K)
      → (ℕ → Bool)
      → ℕ
      → Server K
      → Option (Server K)
  accept_new epoll_ctl close accept malloc fd s =
      let (client_fd, s') = accept_connection accept fd s in
      new_connection epoll_ctl close malloc client_fd s'

  -- `ServerService::close_connection()`, which the destructor calls too
  unfoldable pub close_service : (ℕ → K → K) → Service K → Service K
  close_service close v =
      let io = record (v.server.io_service) { kernel = close v.fd v.server.io_service.kernel } in
      record { server = record (v.server) { io_service = io }; fd = 2 ^ 32 - 1 }

module _ {K : Type 0} (socket : K → ℕ × K) (bind listen : ℕ → ℕ → K → Bool × K) where
  -- The result is the descriptor, or -1, -2 or -3.
  unfoldable pub start_server : ℕ → ℕ → K → ℕ × K
  start_server port listen_n k =
      let (fd, k1) = socket k in
      let (bound, k2) = bind fd port k1 in
      let (listens, k3) = listen fd listen_n k2 in
      if lt_int fd 0
      then (2 ^ 32 - 1, k1)
      else if bound
      then (if listens then (fd, k3) else (2 ^ 32 - 3, k3))
      else (2 ^ 32 - 2, k2)

  module _ (epoll_ctl : Op → ℕ → List Flag → K → Bool × K) (close : ℕ → K → K) where
    unfoldable pub register_service : ℕ → Server K → Service K
    register_service fd s =
        let (ok, io) = register_io epoll_ctl s.io_service fd e_rw (some new_connection_callback) in
        let v : Service K = record { server = record s { io_service = io }; fd = fd } in
        if lt_int 0 fd
        then (if ok then v else close_service close v)
        else record { server = s; fd = fd }

    -- `ServerService::ServerService`
    unfoldable pub new_service : ℕ → ℕ → ℕ → ℕ → ℕ → K → Service K
    new_service port max_client_count cache_size queued running k =
        let (fd, k') = start_server port max_client_count k in
        register_service fd (new_server max_client_count cache_size queued running k')

    taken_register :
        (io : IoService K Callback) (fd : ℕ) (e : Event) (f : Option Callback)
        → ((register_io epoll_ctl io fd e f).0 ≡ taken epoll_ctl epoll_ctl_add io fd e)
          × (taken epoll_ctl epoll_ctl_add io fd e ≡ false
              → (register_io epoll_ctl io fd e f).1.callback_map ≡ io.callback_map)
    unfolding register_io add_event
    taken_register io fd e f = (ground arith, λ no. rw no refl)

    abbrev pub callback : Service K → ℕ → Event → Option (Option Callback)
    callback v fd e = find epoll_ctl v.server.io_service fd e

    -- A service that was to listen on the descriptor `fd` does so, or has failed to.
    pub record Opening (fd : ℕ) (opened : Bool) (v : Service K) : Type 0 where
      pub positive : lt_int 0 v.fd ≡ opened
      pub same : (if opened then v.fd else fd) ≡ fd
      pub reads :
          callback v fd e_read ≡ (if opened then some (some new_connection_callback) else none)
      pub writes :
          callback v fd e_write ≡ (if opened then some (some new_connection_callback) else none)

    register_service-Opening :
        (fd : ℕ) (s : Server K)
        → s.io_service.callback_map ≡ []
        → Opening fd
            (lt_int 0 fd && taken epoll_ctl epoll_ctl_add s.io_service fd e_rw)
            (register_service fd s)
    unfolding register_service close_service covers cpp_rpc.Assoc.lookup
    register_service-Opening fd s empty =
        let f = some new_connection_callback in
        let (answer, kept) = taken_register s.io_service fd e_rw f in
        let at = register_io_lem epoll_ctl s.io_service fd e_rw f fd in
        elim (Bool-cases (lt_int 0 fd)) [
          | inl p ↦ elim (Bool-cases (taken epoll_ctl epoll_ctl_add s.io_service fd e_rw)) [
            | inl ok ↦
                rw (register_service, p, answer, ok)
                  (record {
                    positive = p;
                    same = refl;
                    reads = ground (arith, at e_read);
                    writes = ground (arith, at e_write);
                  })
            | inr failed ↦
                let gone = kept failed ∙ empty in
                rw (register_service, p, answer, failed)
                  (record {
                    positive = refl;
                    same = refl;
                    reads = rw gone refl;
                    writes = rw gone refl;
                  })
          ]
          | inr p ↦
              rw (register_service, p)
                (record {
                  positive = p;
                  same = refl;
                  reads = rw empty refl;
                  writes = rw empty refl;
                })
        ]

    refused-Opening :
        (fd code : ℕ) (opened : Bool) (s : Server K)
        → lt_int 0 code ≡ false
        → opened ≡ false
        → s.io_service.callback_map ≡ []
        → Opening fd opened (register_service code s)
    unfolding register_service cpp_rpc.Assoc.lookup
    refused-Opening fd code opened s p unopened empty =
        rw (register_service, p, unopened)
          (record { positive = p; same = refl; reads = rw empty refl; writes = rw empty refl })

    -- Every call that opens the service succeeds, and the descriptor is positive.
    abbrev pub opens : ℕ → ℕ → K → Bool
    opens port n k =
        let (fd, k1) = socket k in
        let (bound, k2) = bind fd port k1 in
        let (listening, k3) = listen fd n k2 in
        lt_int 0 fd
        && (bound && (listening && (epoll_ctl epoll_ctl_add fd (epoll_event e_rw) k3).0))

    -- The descriptor of a new service is positive just if `socket` gave a positive one and `bind`, `listen`
    -- and the registration with epoll succeeded. It is then the one of `socket`, and both of its events
    -- go to new_connection; otherwise neither event of that descriptor has a callback.
    pub new_service_lem :
        (port max_client_count cache_size queued running : ℕ) (k : K)
        → Opening
            (socket k).0
            (opens port max_client_count k)
            (new_service port max_client_count cache_size queued running k)
    unfolding new_service new_server start_server
    new_service_lem port n size queued running k =
        let (fd, k1) = socket k in
        let (bound, k2) = bind fd port k1 in
        let (listening, k3) = listen fd n k2 in
        elim (Bool-cases (lt_int fd 0)) [
          | inl p ↦
              let no : lt_int 0 fd ≡ false = ground arith in
              rw (new_service, start_server, p) (refused-Opening fd _ _ _ refl (rw no refl) refl)
          | inr p ↦ elim (Bool-cases bound) [
            | inl b ↦ elim (Bool-cases listening) [
              | inl l ↦ rw (new_service, start_server, p, b, l) (register_service-Opening fd _ refl)
              | inr l ↦
                  rw (new_service, start_server, p, b, l)
                    (refused-Opening fd _ _ _ refl (ground arith) refl)
            ]
            | inr b ↦
                rw (new_service, start_server, p, b)
                  (refused-Opening fd _ _ _ refl (ground arith) refl)
          ]
        ]
