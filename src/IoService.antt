-- ===== src/IoService.antt =====
-- RPC_server/IoService.cc: the callbacks of the sockets, and the loop that waits for events.
-- The kernel's epoll set is a state `K` of its own, and `epoll_ctl` a parameter on it that says whether
-- it succeeded. A callback is an `Option`, `none` the empty function; what a call does is a
-- parameter on the world `W`, in which the loop finds the callbacks. What `epoll_wait` returns is a
-- list of answers, which ends the loop at the latest.
pub mod Callbacks
pub mod Poll
pub mod Start
mod Tests
use cpp_rpc.Prelude.{
  ℕ, Bool, true, false, Option, none, some, List, [], ◌∷◌, ◌>>=◌, ◌==◌, ◌&&◌, ◌≡◌, ◌↔◌, refl, arith,
  if◌then◌else◌,
}
use cpp_rpc.Assoc.{Key, lookup, insert, erase}

pub data Event : Type 0 where
  e_read e_write e_rw : Event

pub data Flag : Type 0 where
  epollin epollout epolloneshot : Flag

pub data Op : Type 0 where
  epoll_ctl_add epoll_ctl_del epoll_ctl_mod : Op

unfoldable pub same_event : Event → Event → Bool
same_event e_read e_read = true
same_event e_write e_write = true
same_event e_rw e_rw = true
same_event e e' = false

same_event_iff : (e e' : Event) → (same_event e e' ≡ true) ↔ (e ≡ e')
unfolding same_event
same_event_iff e e' = ground arith

-- `FdEvent`
abbrev pub FdEvent : Type 0
FdEvent = ℕ × Event

abbrev same_key : FdEvent → FdEvent → Bool
same_key (fd, e) (fd', e') = fd == fd' && same_event e e'

pub same_key_iff : (a b : FdEvent) → (same_key a b ≡ true) ↔ (a ≡ b)
same_key_iff (fd, e) (fd', e') = ground (arith, same_event_iff e e')

instance abbrev pub fd_event_key : Key FdEvent
fd_event_key = record { same = same_key; same_iff = same_key_iff }

unfoldable pub epoll_event : Event → List Flag
epoll_event e_read = epollin ∷ epolloneshot ∷ []
epoll_event e_write = epollout ∷ epolloneshot ∷ []
epoll_event e_rw = epollin ∷ epollout ∷ epolloneshot ∷ []

-- `m_callback_map`, the kernel's set, and `m_exit`
pub record IoService (K F : Type 0) : Type 0 where
  pub callback_map : List (FdEvent × Option F)
  pub kernel : K
  pub exit : Bool

module _ {F : Type 0} where
  unfoldable pub set_callbacks :
      ℕ → Event → Option F → List (FdEvent × Option F) → List (FdEvent × Option F)
  set_callbacks fd e_rw f m = insert (fd, e_write) f (insert (fd, e_read) f m)
  set_callbacks fd e f m = insert (fd, e) f m

  unfoldable pub erase_callbacks : ℕ → Event → List (FdEvent × Option F) → List (FdEvent × Option F)
  erase_callbacks fd e_rw m = erase (fd, e_write) (erase (fd, e_read) m)
  erase_callbacks fd e m = erase (fd, e) m

module _ {K F : Type 0} (epoll_ctl : Op → ℕ → List Flag → K → Bool × K) where
  unfoldable pub add_event : IoService K F → ℕ → Event → Bool × IoService K F
  add_event io fd e =
      let (ok, k) = epoll_ctl epoll_ctl_add fd (epoll_event e) io.kernel in
      (ok, record io { kernel = k })

  unfoldable pub remove_event : IoService K F → ℕ → Event → Bool × IoService K F
  remove_event io fd e =
      let (ok, k) = epoll_ctl epoll_ctl_del fd (epoll_event e) io.kernel in
      (ok, record io { kernel = k })

  unfoldable pub modify_event : IoService K F → ℕ → Event → Bool × IoService K F
  modify_event io fd e =
      let (ok, k) = epoll_ctl epoll_ctl_mod fd (epoll_event e) io.kernel in
      (ok, record io { kernel = k })

  -- The result is that of the call: `false` for -1.
  unfoldable pub register_io : IoService K F → ℕ → Event → Option F → Bool × IoService K F
  register_io io fd e f =
      let (ok, io') = add_event io fd e in
      if ok
      then (true, record io' { callback_map = set_callbacks fd e f io'.callback_map })
      else (false, io')

  unfoldable pub unregister_io : IoService K F → ℕ → Event → Bool × IoService K F
  unregister_io io fd e =
      let (ok, io') = remove_event io fd e in
      if ok
      then (true, record io' { callback_map = erase_callbacks fd e io'.callback_map })
      else (false, io')

-- an element of what `epoll_wait` fills in
pub record EpollEvent : Type 0 where
  pub fd : ℕ
  pub readable : Bool
  pub writable : Bool

pub data Wait : Type 0 where
  wait_error timed_out : Wait
  ready : List EpollEvent → Wait

module _ {K F W : Type 0} (epoll_ctl : Op → ℕ → List Flag → K → Bool × K) (io : W → IoService K F)
    (set_io : IoService K F → W → W) (call : F → ℕ → Event → W → Option W) where
  unfoldable pub response_event : ℕ → Event → W → Option W
  response_event fd e w = elim (lookup (fd, e) (io w).callback_map) [
    | some (some f) ↦ call f fd e w
    | some none ↦ some w
    | none ↦ some w
  ]

  unfoldable pub poll_event : EpollEvent → W → Option W
  poll_event v w = do
    w1 ← if v.readable then response_event v.fd e_read w else some w
    w2 ← if v.writable then response_event v.fd e_write w1 else some w1
    some (set_io (modify_event epoll_ctl (io w2) v.fd e_rw).1 w2)

  unfoldable pub poll_batch : List EpollEvent → W → Option W
  poll_batch [] w = some w
  poll_batch (v ∷ vs) w = poll_event v w >>= λ w'. poll_batch vs w'

  unfoldable pub poll : List Wait → W → Option W
  poll [] w = some w
  poll (wait_error ∷ more) w = some w
  poll (timed_out ∷ more) w = if (io w).exit then some w else poll more w
  poll (ready vs ∷ more) w =
      if (io w).exit then some w else (poll_batch vs w >>= λ w'. poll more w')
