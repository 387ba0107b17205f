-- ===== src/ClientIo.antt =====
-- RPC_client/IoService.cc: the client's callbacks of its socket, and its event loop. It differs from the
-- server's in the events that it asks for, in the order of the two calls of an event, and in not arming
-- a descriptor again; when the loop ends it forgets the epoll descriptor.
-- The kernel's epoll sets are a state `K`. `epoll_ctl`, which says whether it succeeded, and `close` are
-- parameters on it, and so is what a callback does, on the world `W`. What `epoll_wait` returns is a list.
pub mod Same
mod Tests
use cpp_rpc.Prelude.{
  ℕ, ◌-◌, ◌^◌, Bool, true, false, Option, none, some, List, [], ◌∷◌, ◌>>=◌, if◌then◌else◌,
}
use cpp_rpc.Assoc.{lookup, insert, erase}
use cpp_rpc.IoService.{
  Event, e_read, e_write, e_rw, Flag, epollin, epollout, Op, epoll_ctl_add, epoll_ctl_del,
  epoll_ctl_mod, FdEvent, fd_event_key, EpollEvent, Wait, wait_error, timed_out, ready,
}

-- `m_callback_map`, `m_exit` and `m_epoll_fd`, with the kernel's sets
pub record ClientIo (K F : Type 0) : Type 0 where
  pub callback_map : List (FdEvent × Option F)
  pub kernel : K
  pub exit : Bool
  pub epoll_fd : ℕ

unfoldable pub epoll_event : Event → List Flag
epoll_event e_read = epollin ∷ []
epoll_event e_write = epollout ∷ []
epoll_event e_rw = epollin ∷ epollout ∷ []

module _ {F : Type 0} where
  unfoldable pub set_callbacks :
      ℕ → Event → Option F → List (FdEvent × Option F) → List (FdEvent × Option F)
  set_callbacks fd e_rw f m = insert (fd, e_write) f (insert (fd, e_read) f m)
  set_callbacks fd e f m = insert (fd, e) f m

  unfoldable pub erase_callbacks : ℕ → Event → List (FdEvent × Option F) → List (FdEvent × Option F)
  erase_callbacks fd e_rw m = erase (fd, e_write) (erase (fd, e_read) m)
  erase_callbacks fd e m = erase (fd, e) m

module _ {K F : Type 0} where
  -- The constructor, with what `epoll_create` returns.
  unfoldable pub new_client_io : ℕ → K → ClientIo K F
  new_client_io epoll_fd k = record {
    callback_map = [];
    kernel = k;
    exit = false;
    epoll_fd = epoll_fd;
  }

  -- The destructor up to the end of the thread, which it waits for.
  unfoldable pub delete_client_io : (ℕ → K → K) → ClientIo K F → ClientIo K F
  delete_client_io close io = record io { exit = true; kernel = close io.epoll_fd io.kernel }

  module _ (epoll_ctl : ℕ → Op → ℕ → List Flag → K → Bool × K) where
    -- The result is that of the call: `false` for -1.
    unfoldable pub register_io : ClientIo K F → ℕ → Event → Option F → Bool × ClientIo K F
    register_io io fd e f =
        let (ok, k) = epoll_ctl io.epoll_fd epoll_ctl_add fd (epoll_event e) io.kernel in
        let io' = record io { kernel = k } in
        if ok
        then (true, record io' { callback_map = set_callbacks fd e f io'.callback_map })
        else (false, io')

    unfoldable pub unregister_io : ClientIo K F → ℕ → Event → Bool × ClientIo K F
    unregister_io io fd e =
        let (ok, k) = epoll_ctl io.epoll_fd epoll_ctl_del fd (epoll_event e) io.kernel in
        let io' = record io { kernel = k } in
        if ok
        then (true, record io' { callback_map = erase_callbacks fd e io'.callback_map })
        else (false, io')

    unfoldable pub modify_io_event : ClientIo K F → ℕ → Event → Bool × ClientIo K F
    modify_io_event io fd e =
        let (ok, k) = epoll_ctl io.epoll_fd epoll_ctl_mod fd (epoll_event e) io.kernel in
        (ok, record io { kernel = k })

module _ {K F W : Type 0} (io : W → ClientIo K F) (set_io : ClientIo K F → W → W)
    (call : F → ℕ → Event → W → Option W) where
  unfoldable pub response_event : ℕ → Event → W → Option W
  response_event fd e w = elim (lookup (fd, e) (io w).callback_map) [
    | some (some f) ↦ call f fd e w
    | some none ↦ some w
    | none ↦ some w
  ]

  unfoldable pub poll_event : EpollEvent → W → Option W
  poll_event v w = do
    w1 ← if v.writable then response_event v.fd e_write w else some w
    if v.readable then response_event v.fd e_read w1 else some w1

  unfoldable pub poll_batch : List EpollEvent → W → Option W
  poll_batch [] w = some w
  poll_batch (v ∷ vs) w = poll_event v w >>= λ w'. poll_batch vs w'

  unfoldable pub poll_rounds : List Wait → W → Option W
  poll_rounds [] w = some w
  poll_rounds (wait_error ∷ more) w = some w
  poll_rounds (timed_out ∷ more) w = if (io w).exit then some w else poll_rounds more w
  poll_rounds (ready vs ∷ more) w =
      if (io w).exit then some w else (poll_batch vs w >>= λ w'. poll_rounds more w')

  -- `poll`, to its end
  unfoldable pub poll : List Wait → W → Option W
  poll waits w =
      poll_rounds waits w >>= λ w'. some (set_io (record (io w') { epoll_fd = 2 ^ 32 - 1 }) w')
