-- ===== src/IoService/Tests.antt =====
-- A kernel that takes every descriptor but 9, and callbacks that are numbers: a call counts them.
use cpp_rpc.Prelude.{ℕ, ◌+◌, ◌≡◌, refl, Bool, true, false, not, Option, some, List, [], ◌==◌}
use cpp_rpc.Assoc.{lookup, insert}
use cpp_rpc.IoService.{
  Event, e_rw, Flag, Op, IoService, register_io, add_event, set_callbacks, response_event,
  poll_event, modify_event, same_event,
}

abbrev ctl : Op → ℕ → List Flag → ℕ → Bool × ℕ
ctl op fd flags n = (not (fd == 9), n + 1)

abbrev idle : IoService ℕ ℕ
idle = record { callback_map = []; kernel = 0; exit = false }

abbrev World : Type 0
World = IoService ℕ ℕ × ℕ

abbrev count : ℕ → ℕ → Event → World → Option World
count f fd e (io, n) = some (io, n + f)

abbrev world : World
world = ((register_io ctl idle 5 e_rw (some 3)).1, 1)

-- the callback is called, and the descriptor armed again
polled :
    poll_event ctl
      (λ w. w.0)
      (λ io w. (io, w.1))
      count
      (record { fd = 5; readable = true; writable = false })
      world
    ≡ some ((modify_event ctl world.0 5 e_rw).1, 4)
unfolding poll_event response_event register_io add_event set_callbacks modify_event lookup insert
    same_event
polled = refl
