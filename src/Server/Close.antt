-- ===== src/Server/Close.antt =====
-- Tasks of a connection that RPC_server/RequestHandle.cc has closed.
use cpp_rpc.Prelude.{get_elem?-set, ℕ, ◌≡◌, refl, Bool, true, none, some, List, ◌>>=◌, get_elem?}
use cpp_rpc.IoService.{Flag, Op}
use cpp_rpc.Server.{
  RequestHandle, Task, Server, object, store, drop_client, close_fd, close_connection,
  worker_caller,
}

module _ {K : Type 0} (epoll_ctl : Op → ℕ → List Flag → K → Bool × K) (close : ℕ → K → K) where
  -- Closing a connection frees its object while the tasks of its requests stay in the pool's queue:
  -- each of them that a worker runs afterwards uses the freed object, a fault.
  pub close_connection-tasks :
      (h : ℕ) (x : RequestHandle) (s : Server K) (t : Task)
      → get_elem? s.heap h ≡ some (some x)
      → x.held ≡ true
      → t.handle ≡ h
      → ((close_connection epoll_ctl close h x s).tasks ≡ s.tasks)
        × (worker_caller t (close_connection epoll_ctl close h x s) ≡ none)
  unfolding close_connection close_fd drop_client store worker_caller object
  close_connection-tasks h x s t e p q =
      (refl, rw (q, p, get_elem?-set s.heap h (some x) none e, ◌>>=◌))
