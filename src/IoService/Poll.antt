-- ===== src/IoService/Poll.antt =====
-- Which callback the loop of RPC_server/IoService.cc calls for an event.
use cpp_rpc.Prelude.{
  ℕ, ◌≡◌, refl, Bool, true, false, Option, some, List, ◌>>=◌, if◌then◌else◌, arith, not,
}
use cpp_rpc.IoService.{
  Event, e_read, e_write, e_rw, Flag, Op, IoService, response_event, poll_event, modify_event,
  register_io, epoll_ctl_add,
}
use cpp_rpc.IoService.Callbacks.{find, happens, covers, taken, register_io_lem}

module _ {K F W : Type 0} (epoll_ctl : Op → ℕ → List Flag → K → Bool × K) (io : W → IoService K F)
    (set_io : IoService K F → W → W) (call : F → ℕ → Event → W → Option W) where
  respond_found :
      (w : W) (fd : ℕ) (e : Event) (f : F)
      → find epoll_ctl (io w) fd e ≡ some (some f)
      → response_event epoll_ctl io set_io call fd e w ≡ call f fd e w
  unfolding response_event
  respond_found w fd e f h = rw (response_event, h)

  found_registered :
      (base : IoService K F) (fd : ℕ) (e e' : Event) (f : F)
      → covers e e' ≡ true
      → happens e' ≡ true
      → taken epoll_ctl epoll_ctl_add base fd e ≡ true
      → find epoll_ctl (register_io epoll_ctl base fd e (some f)).1 fd e' ≡ some (some f)
  found_registered base fd e e' f c h t =
      ground (arith, (register_io_lem epoll_ctl base fd e (some f) fd e' h).0)

  -- In a world whose callbacks are those after a registration that the kernel took, an element of a
  -- batch with one event that the registration is about calls just that callback, and then arms the
  -- descriptor for both events again, whichever it was.
  pub poll_event_registered :
      (base : IoService K F) (fd : ℕ) (e : Event) (f : F) (w : W) (reads : Bool)
      → covers e (if reads then e_read else e_write) ≡ true
      → taken epoll_ctl epoll_ctl_add base fd e ≡ true
      → (io w ≡ (register_io epoll_ctl base fd e (some f)).1)
      → poll_event epoll_ctl io set_io call
          (record { fd = fd; readable = reads; writable = not reads })
          w
        ≡ (call f fd (if reads then e_read else e_write) w >>= λ w'.
            some (set_io (modify_event epoll_ctl (io w') fd e_rw).1 w'))
  unfolding poll_event
  poll_event_registered base fd e f w true c t q =
      rw (respond_found w fd e_read f (rw q (found_registered base fd e e_read f c refl t)))
  poll_event_registered base fd e f w false c t q =
      rw (respond_found w fd e_write f (rw q (found_registered base fd e e_write f c refl t)))
