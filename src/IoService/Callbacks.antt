-- ===== src/IoService/Callbacks.antt =====
-- The callback map of RPC_server/IoService.cc as a partial function of a descriptor and an event.
use cpp_rpc.Prelude.{
  ℕ, ◌≡◌, Bool, true, false, Option, none, some, List, ◌==◌, ◌&&◌, if◌then◌else◌, arith,
}
use cpp_rpc.Assoc.{lookup, insert, erase, lookup-insert, lookup-erase}
use cpp_rpc.IoService.{
  Event, e_read, e_write, e_rw, Flag, Op, FdEvent, fd_event_key, IoService, add_event, remove_event,
  set_callbacks, erase_callbacks, register_io, unregister_io, same_event, epoll_event,
  epoll_ctl_add, epoll_ctl_del,
}

-- the events that a registration for `e` is about
unfoldable pub covers : Event → Event → Bool
covers e_read e_read = true
covers e_write e_write = true
covers e_rw e_read = true
covers e_rw e_write = true
covers e e' = false

-- `e_rw` itself is never an event that happens
abbrev pub happens : Event → Bool
happens e_rw = false
happens e = true

module _ {F : Type 0} where
  find-set :
      (fd : ℕ) (e : Event) (f : Option F) (m : List (FdEvent × Option F)) (fd' : ℕ) (e' : Event)
      → happens e' ≡ true
      → lookup (fd', e') (set_callbacks fd e f m)
        ≡ (if fd == fd' && covers e e' then some f else lookup (fd', e') m)
  unfolding set_callbacks covers same_event
  find-set fd e f m fd' e' h = ground (
    arith,
    lookup-insert (fd, e) (fd', e') f m,
    lookup-insert (fd, e_read) (fd', e') f m,
    lookup-insert (fd, e_write) (fd', e') f (insert (fd, e_read) f m),
  )

  find-erase :
      (fd : ℕ) (e : Event) (m : List (FdEvent × Option F)) (fd' : ℕ) (e' : Event)
      → happens e' ≡ true
      → lookup (fd', e') (erase_callbacks fd e m)
        ≡ (if fd == fd' && covers e e' then none else lookup (fd', e') m)
  unfolding erase_callbacks covers same_event
  find-erase fd e m fd' e' h = ground (
    arith,
    lookup-erase (fd, e) (fd', e') m,
    lookup-erase (fd, e_read) (fd', e') m,
    lookup-erase (fd, e_write) (fd', e') (erase (fd, e_read) m),
  )

module _ {K F : Type 0} (epoll_ctl : Op → ℕ → List Flag → K → Bool × K) where
  abbrev pub find : IoService K F → ℕ → Event → Option (Option F)
  find io fd e = lookup (fd, e) io.callback_map

  -- the kernel takes the registration
  abbrev pub taken : Op → IoService K F → ℕ → Event → Bool
  taken op io fd e = (epoll_ctl op fd (epoll_event e) io.kernel).0

  -- What a registration, and then the end of one, leave for an event that happens: the new callback,
  -- or none, where the descriptor and the event are theirs and the kernel agreed, and the old one
  -- everywhere else.
  pub register_io_lem :
      (io : IoService K F) (fd : ℕ) (e : Event) (f : Option F) (fd' : ℕ) (e' : Event)
      → happens e' ≡ true
      → (find (register_io epoll_ctl io fd e f).1 fd' e' ≡ (
          if taken epoll_ctl_add io fd e && (fd == fd' && covers e e')
          then some f
          else find io fd' e'))
        × (find (unregister_io epoll_ctl io fd e).1 fd' e' ≡ (
            if taken epoll_ctl_del io fd e && (fd == fd' && covers e e')
            then none
            else find io fd' e'))
  unfolding register_io unregister_io add_event remove_event
  register_io_lem io fd e f fd' e' h = (
    ground (arith, find-set fd e f io.callback_map fd' e' h),
    ground (arith, find-erase fd e io.callback_map fd' e' h),
  )
