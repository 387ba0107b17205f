-- ===== src/IoService/Start.antt =====
-- RPC_server/IoService.cc: the service with its epoll descriptor and the pool of its polling threads. The two
-- calls of the kernel, epoll_create and close, are parameters on the kernel's state.
use cpp_rpc.Prelude.{
  ℕ, zero, suc, ◌≡◌, refl, ap, ◌∙◌, true, false, Option, some, List, [], ◌∷◌, ◌++◌, sym, append-nil,
  append_assoc, replicate,
}
use cpp_rpc.IoService.{IoService}
use cpp_rpc.ThreadPool.{
  Ready, unset, tag, notify, Pool, Event, admits, pushes, notifies, entering, append_task,
  push_task, append_notify, notify_all, admit, new_pool, step, run,
}

-- the task `bind(&IoService::poll, this)`
pub data PollTask : Type 0 where
  poll_task : PollTask

-- the service with `m_epoll_fd` and `m_pool`
pub record Polled (K F : Type 0) : Type 0 where
  pub io_service : IoService K F
  pub epoll_fd : ℕ
  pub pool : Pool PollTask

-- the calls of `append_task` in the constructor, while no worker moves
unfoldable pub append_polls : ℕ → List (Event PollTask)
append_polls zero = []
append_polls (suc n) = admits ∷ pushes (some poll_task) ∷ notifies ∷ append_polls n

abbrev queued : List (Option PollTask) → Ready → ℕ → Pool PollTask
queued ts r n = record {
  shared = record { tasks = ts; ready = r; exit = false; running = 0 };
  workers = replicate n entering;
  admitted = 0;
  pushed = 0;
}

run-append_polls :
    (n k : ℕ) (ts : List (Option PollTask)) (r : Ready)
    → (r' : Ready) × (run (queued ts r k) (append_polls n)
        ≡ queued (ts ++ replicate n (some poll_task)) r' k)
unfolding append_polls run step admit push_task append_notify notify_all append_task notify
run-append_polls zero k ts r = (r, ap (λ us. queued us r k) (sym (append-nil ts)))
run-append_polls (suc n) k ts r =
    let (r', e) = run-append_polls n k (ts ++ some poll_task ∷ []) (tag 1) in
    (
      r',
      e
          ∙ ap (λ us. queued us r' k)
              (append_assoc ts (some poll_task ∷ []) (replicate n (some poll_task))),
    )

unfoldable pub create_epoll : {K : Type 0} → (ℕ → K → ℕ × K) → ℕ → K → ℕ × K
create_epoll epoll_create size k = epoll_create size k

module _ {K F : Type 0} where
  -- `IoService::IoService`
  unfoldable pub new_io_service : (ℕ → K → ℕ × K) → ℕ → ℕ → K → Polled K F
  new_io_service epoll_create size threads k =
      let (fd, k') = create_epoll epoll_create size k in
      record {
        io_service = record { callback_map = []; kernel = k'; exit = false };
        epoll_fd = fd;
        pool = run (new_pool threads) (append_polls threads);
      }

  -- `IoService::~IoService`, up to the end of `m_pool`
  unfoldable pub delete_io_service : (ℕ → K → K) → Polled K F → Polled K F
  delete_io_service close v = record v {
    io_service = record (v.io_service) {
      exit = true;
      kernel = close v.epoll_fd v.io_service.kernel;
    };
  }

-- The constructor leaves as many workers as it was told, and a polling loop in their queue for each.
pub new_io_service_lem :
    {K : Type 0} (F : Type 0) (epoll_create : ℕ → K → ℕ × K) (size threads : ℕ) (k : K)
    → let v : Polled K F = new_io_service epoll_create size threads k in
      (v.pool.workers ≡ replicate threads entering)
      × (v.pool.shared.tasks ≡ replicate threads (some poll_task))
      × (v.io_service.exit ≡ false)
unfolding new_io_service new_pool
new_io_service_lem F epoll_create size threads k =
    let (r', e) = run-append_polls threads threads [] unset in
    (ap (λ (q : Pool PollTask). q.workers) e, ap (λ (q : Pool PollTask). q.shared.tasks) e, refl)
