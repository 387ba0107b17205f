-- ===== src/Server/Begins.antt =====
-- The number of clients of `ServerService` (RPC_server/RPC_server.cc) from its construction on.
use cpp_rpc.Prelude.{ℕ, ◌-◌, ◌^◌, ◌<◌, refl, Bool, Bool-cases, inl, inr, some, List, arith, Holds}
use cpp_rpc.Int32.{lt_int}
use cpp_rpc.IoService.{e_rw, Flag, Op, register_io}
use cpp_rpc.Monitor.{new_monitor}
use cpp_rpc.Server.{Server, new_connection_callback}
use cpp_rpc.Server.Counts.{IsCounted, IsCounted-same, open_count}
use cpp_rpc.Server.Events.{Event as ServerEvent, run, run-IsCounted}
use Prim.Native.String.{String}
use cpp_rpc.Server.Start.{new_server, start_server, register_service, close_service, new_service}

module _ {K : Type 0} (socket : K → ℕ × K) (bind listen : ℕ → ℕ → K → Bool × K)
    (epoll_ctl : Op → ℕ → List Flag → K → Bool × K) (close : ℕ → K → K) where
  register_service-IsCounted :
      (fd : ℕ) (s : Server K)
      → IsCounted s
      → IsCounted (register_service socket bind listen epoll_ctl close fd s).server
  unfolding register_service close_service
  register_service-IsCounted fd s c =
      let r = register_io epoll_ctl s.io_service fd e_rw (some new_connection_callback) in
      elim (Bool-cases (lt_int 0 fd)) [
        | inl p ↦ elim (Bool-cases r.0) [
          | inl ok ↦ rw (register_service, p, ok) (IsCounted-same c refl refl refl refl)
          | inr failed ↦ rw (register_service, p, failed) (IsCounted-same c refl refl refl refl)
        ]
        | inr p ↦ rw (register_service, p) c
      ]

  new_service-IsCounted :
      (port max_client_count cache_size queued running : ℕ) (k : K)
      → max_client_count < 2 ^ 31 - 1
      → IsCounted
          (new_service socket bind listen epoll_ctl close port max_client_count cache_size queued
            running k).server
  unfolding new_service new_server new_monitor open_count
  new_service-IsCounted port n size queued running k small =
      let (fd, k') = start_server socket bind listen port n k in
      register_service-IsCounted fd (new_server n size queued running k')
        (record { clients = refl; monitored = refl; bounded = omega arith; small = small })

  -- From its construction on, in every history of events that does not end in a fault, the number of
  -- clients and the number that the monitor shows are both that of the open connections, which is at
  -- most max_client_count, if that is below 2 ^ 31 - 1.
  pub new_service-run :
      (malloc : ℕ → Bool) (parse : List ℕ → String) (events : List ServerEvent)
      (port max_client_count cache_size queued running : ℕ) (k : K)
      → max_client_count < 2 ^ 31 - 1
      → Holds IsCounted (
          run epoll_ctl close malloc parse events
            (new_service socket bind listen epoll_ctl close port max_client_count cache_size queued
              running k).server)
  new_service-run malloc parse events port n size queued running k small =
      run-IsCounted epoll_ctl close malloc parse events _
        (new_service-IsCounted port n size queued running k small)
