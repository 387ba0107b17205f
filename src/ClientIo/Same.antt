-- ===== src/ClientIo/Same.antt =====
-- What the event loops of RPC_client/IoService.cc and RPC_server/IoService.cc have in common.
use cpp_rpc.Prelude.{
  ℕ, ◌-◌, ◌^◌, ◌≡◌, refl, sym, ap, ◌∙◌, Bool, true, false, not, ◌&&◌, Option, none, some, List, [],
  ◌∷◌, ◌>>=◌, if◌then◌else◌, arith,
}
use cpp_rpc.IoService
use cpp_rpc.IoService.{
  Event, e_read, e_write, e_rw, Flag, epollin, epollout, epolloneshot, Op, epoll_ctl_add,
  epoll_ctl_del, epoll_ctl_mod, FdEvent, fd_event_key, EpollEvent, Wait, wait_error, timed_out,
  ready, IoService,
}
use cpp_rpc.ClientIo.{
  ClientIo, epoll_event, set_callbacks, erase_callbacks, register_io, unregister_io,
  modify_io_event, response_event, poll_event, poll_batch, poll_rounds, poll,
}

-- the flags without EPOLLONESHOT
unfoldable pub level : List Flag → List Flag
level [] = []
level (epolloneshot ∷ fs) = level fs
level (f ∷ fs) = f ∷ level fs

level-epoll_event : (e : Event) → level (IoService.epoll_event e) ≡ epoll_event e
unfolding level IoService.epoll_event epoll_event
level-epoll_event e_read = refl
level-epoll_event e_write = refl
level-epoll_event e_rw = refl

set_callbacks_same :
    {F : Type 0} (fd : ℕ) (e : Event) (f : Option F) (m : List (FdEvent × Option F))
    → IoService.set_callbacks fd e f m ≡ set_callbacks fd e f m
unfolding IoService.set_callbacks set_callbacks
set_callbacks_same fd e_read f m = refl
set_callbacks_same fd e_write f m = refl
set_callbacks_same fd e_rw f m = refl

erase_callbacks_same :
    {F : Type 0} (fd : ℕ) (e : Event) (m : List (FdEvent × Option F))
    → IoService.erase_callbacks fd e m ≡ erase_callbacks fd e m
unfolding IoService.erase_callbacks erase_callbacks
erase_callbacks_same fd e_read m = refl
erase_callbacks_same fd e_write m = refl
erase_callbacks_same fd e_rw m = refl

module _ {K F : Type 0} where
  -- The client's part that the server has too.
  abbrev pub server_of : ClientIo K F → IoService K F
  server_of io = record { callback_map = io.callback_map; kernel = io.kernel; exit = io.exit }

  abbrev pub with_server : IoService K F → ClientIo K F → ClientIo K F
  with_server s io = record io { callback_map = s.callback_map; kernel = s.kernel; exit = s.exit }

  module _ (epoll_ctl : ℕ → Op → ℕ → List Flag → K → Bool × K) where
    -- the server's kernel, as the client's calls would have it
    abbrev pub server_ctl : ClientIo K F → Op → ℕ → List Flag → K → Bool × K
    server_ctl io op fd flags k = epoll_ctl io.epoll_fd op fd (level flags) k

    -- what a call on the server's part makes of the whole
    abbrev pub lifted : ClientIo K F → Bool × IoService K F → Bool × ClientIo K F
    lifted io (ok, s) = (ok, with_server s io)

    -- Registering, ending a registration and changing its events are on the client what they are on the
    -- server, if the kernel is asked for the same events without EPOLLONESHOT.
    pub registrations_same :
        (io : ClientIo K F) (fd : ℕ) (e : Event) (f : Option F)
        → (register_io epoll_ctl io fd e f
            ≡ lifted io (IoService.register_io (server_ctl io) (server_of io) fd e f))
          × (unregister_io epoll_ctl io fd e
              ≡ lifted io (IoService.unregister_io (server_ctl io) (server_of io) fd e))
          × (modify_io_event epoll_ctl io fd e
              ≡ lifted io (IoService.modify_event (server_ctl io) (server_of io) fd e))
    unfolding register_io unregister_io modify_io_event epoll_event set_callbacks erase_callbacks
        level IoService.register_io IoService.unregister_io IoService.add_event
        IoService.remove_event IoService.modify_event IoService.epoll_event IoService.set_callbacks
        IoService.erase_callbacks
    registrations_same io fd e_read f = (ground arith, ground arith, ground arith)
    registrations_same io fd e_write f = (ground arith, ground arith, ground arith)
    registrations_same io fd e_rw f = (ground arith, ground arith, ground arith)

bind_some : {A : Type 0} (m : Option A) → m ≡ (m >>= λ a. some a)
bind_some none = refl
bind_some (some a) = refl

bind_same :
    {A B : Type 0} {m n : Option A} {f g : A → Option B}
    → m ≡ n
    → ((a : A) → f a ≡ g a)
    → (m >>= f) ≡ (n >>= g)
bind_same {A} {B} {m} {n} {f} {g} e h = ap (λ u. u >>= f) e ∙ ap (λ k. n >>= k) (λ i a. h a i)

module _ {K F W : Type 0} (io : W → ClientIo K F) (set_io : ClientIo K F → W → W)
    (call : F → ℕ → Event → W → Option W) where
  -- the server's loop on the client's world, with a kernel in which nothing is armed again
  abbrev pub steady : Op → ℕ → List Flag → K → Bool × K
  steady op fd flags k = (true, k)

  abbrev pub server_poll : List Wait → W → Option W
  server_poll =
      IoService.poll steady (λ w. server_of (io w)) (λ s w. set_io (with_server s (io w)) w) call

  -- No element of a batch has both events.
  abbrev pub is_single : EpollEvent → Bool
  is_single v = not (v.readable && v.writable)

  abbrev pub all_single : List EpollEvent → Bool
  all_single [] = true
  all_single (v ∷ vs) = is_single v && all_single vs

  abbrev pub are_single : List Wait → Bool
  are_single [] = true
  are_single (ready vs ∷ more) = all_single vs && are_single more
  are_single (w ∷ more) = are_single more

  module _ (kept : (w : W) → set_io (io w) w ≡ w) where
    rearm_same : (m : Option W) → m ≡ (m >>= λ w. some (set_io (io w) w))
    rearm_same none = refl
    rearm_same (some w) = ap some (sym (kept w))

    event_same :
        (fd : ℕ) (reads writes : Bool) (w : W)
        → not (reads && writes) ≡ true
        → poll_event io set_io call (record { fd = fd; readable = reads; writable = writes }) w
          ≡ IoService.poll_event steady
              (λ w. server_of (io w))
              (λ s w. set_io (with_server s (io w)) w)
              call
              (record { fd = fd; readable = reads; writable = writes })
              w
    unfolding poll_event IoService.poll_event response_event IoService.response_event
        IoService.modify_event
    event_same fd true true w h = absurd cc
    event_same fd true false w h = rearm_same (response_event io set_io call fd e_read w)
    event_same fd false true w h =
        sym (bind_some (response_event io set_io call fd e_write w))
        ∙ rearm_same (response_event io set_io call fd e_write w)
    event_same fd false false w h = ap some (sym (kept w))

    batch_same :
        (vs : List EpollEvent) (w : W)
        → all_single vs ≡ true
        → poll_batch io set_io call vs w
          ≡ IoService.poll_batch steady
              (λ w. server_of (io w))
              (λ s w. set_io (with_server s (io w)) w)
              call
              vs
              w
    unfolding poll_batch IoService.poll_batch
    batch_same [] w h = refl
    batch_same (v ∷ vs) w h =
        bind_same (event_same v.fd v.readable v.writable w (ground arith))
          (λ w'. batch_same vs w' (ground arith))

    rounds_same :
        (waits : List Wait) (w : W)
        → are_single waits ≡ true
        → poll_rounds io set_io call waits w ≡ server_poll waits w
    unfolding poll_rounds IoService.poll
    rounds_same [] w h = refl
    rounds_same (wait_error ∷ more) w h = refl
    rounds_same (timed_out ∷ more) w h =
        ap (λ m. if (io w).exit then some w else m) (rounds_same more w h)
    rounds_same (ready vs ∷ more) w h =
        ap (λ m. if (io w).exit then some w else m)
          (bind_same (batch_same vs w (ground arith)) (λ w'. rounds_same more w' (ground arith)))

    -- The client's loop does what the server's does with a kernel that arms nothing, and then forgets its
    -- epoll descriptor, if no descriptor has both events at once.
    pub poll_same :
        (waits : List Wait) (w : W)
        → are_single waits ≡ true
        → poll io set_io call waits w ≡ (
            server_poll waits w >>= λ w'.
            some (set_io (record (io w') { epoll_fd = 2 ^ 32 - 1 }) w'))
    unfolding poll
    poll_same waits w h =
        ap (λ m. m >>= λ w'. some (set_io (record (io w') { epoll_fd = 2 ^ 32 - 1 }) w'))
          (rounds_same waits w h)
