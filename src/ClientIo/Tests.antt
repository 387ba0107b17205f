-- ===== src/ClientIo/Tests.antt =====
-- A loop with one registered descriptor.
use cpp_rpc.Prelude.{
  ℕ, ◌-◌, ◌^◌, ◌≡◌, refl, Bool, not, true, false, Option, some, List, [], ◌∷◌, ◌>>=◌, ltb,
}
use cpp_rpc.Assoc.{lookup, insert}
use cpp_rpc.IoService
use cpp_rpc.IoService.{
  Event, e_read, e_write, e_rw, Flag, Op, EpollEvent, Wait, wait_error, timed_out, ready,
}
use cpp_rpc.ClientIo.{
  ClientIo, register_io, response_event, poll_event, poll_batch, poll_rounds, poll, new_client_io,
  set_callbacks,
}
use cpp_rpc.ClientIo.Same.{server_poll, poll_same}

-- The kernel lists the operations, and refuses them on no epoll descriptor.
abbrev ctl : ℕ → Op → ℕ → List Flag → List ℕ → Bool × List ℕ
ctl epoll_fd op fd flags k = (ltb epoll_fd (2 ^ 31), fd ∷ k)

-- the events that were called back, the last first, and the loop
abbrev World : Type 0
World = List Event × ClientIo (List ℕ) ℕ

abbrev io_of : World → ClientIo (List ℕ) ℕ
io_of w = w.1

abbrev put_io : ClientIo (List ℕ) ℕ → World → World
put_io io w = (w.0, io)

abbrev notes : ℕ → ℕ → Event → World → Option World
notes f fd e w = some (e ∷ w.0, w.1)

abbrev start : ClientIo (List ℕ) ℕ
start = (register_io ctl (new_client_io 3 []) 5 e_rw (some 0)).1

abbrev only : Bool → EpollEvent
only reads = record { fd = 5; readable = reads; writable = not reads }

abbrev waits : List Wait
waits = timed_out ∷ ready (only true ∷ only false ∷ []) ∷ wait_error ∷ []

poll_same_example : poll io_of put_io notes waits ([], start) ≡ (
    server_poll io_of put_io notes waits ([], start) >>= λ w.
    some (put_io (record (io_of w) { epoll_fd = 2 ^ 32 - 1 }) w))
poll_same_example = poll_same io_of put_io notes (λ w. refl) waits ([], start) refl

-- Of two events at once the client answers the one for writing first.
both :
    (poll io_of put_io notes
        (ready (record { fd = 5; readable = true; writable = true } ∷ []) ∷ [])
        ([], start)
      >>= λ w. some w.0)
    ≡ some (e_read ∷ e_write ∷ [])
unfolding poll poll_rounds poll_batch poll_event response_event register_io set_callbacks
    new_client_io lookup insert IoService.same_event
both = refl
