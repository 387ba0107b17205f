-- ===== src/Timers/Clock.antt =====
-- `DateTime` of RPC_util/TimerManager.cc: the milliseconds of the steady clock, and what a Timer that counts in
-- them tells of the nanoseconds that have passed. NANO is not defined. What the clock shows is an argument, in
-- nanoseconds.
use cpp_rpc.Prelude.{ℕ, ◌+◌, ◌*◌, ◌/◌, ◌<◌, ◌≤◌, ◌≡◌, refl, Bool, true, some, arith, leb}
use cpp_rpc.Assoc.{nat_key, lookup, insert, lookup-insert}
use cpp_rpc.Heap.{HeapOps}
use cpp_rpc.Timers.{deadline, enable_timer}
use cpp_rpc.Timers.Objects.{Timer, World, start, is_time_out}

-- `NanoToMilli`, a duration_cast, which cuts off
unfoldable pub nano_to_milli : ℕ → ℕ
nano_to_milli nano = nano / 1000000

unfoldable pub now_steady_nano : ℕ → ℕ
now_steady_nano nano = nano

unfoldable pub now_steady_miil : ℕ → ℕ
now_steady_miil nano = nano_to_milli nano

unfoldable pub now_steady : ℕ → ℕ
now_steady nano = now_steady_miil nano

module _ {F : Type 0} (heap : HeapOps deadline) where
  -- A Timer is started with `i` milliseconds when the clock shows `nano`. As long as nothing but the clock
  -- moves, so that the manager has not called the Timer back and started it again, is_time_out
  -- answers at any reading, and yes only if more than `i - 1` milliseconds have passed, and always once `i` have.
  pub start-bounds :
      (t i nano : ℕ) (w : World F) (o : Timer F)
      → lookup t w.objects ≡ some o
      → (w' : World F) × (start heap t i (record w { now = now_steady nano }) ≡ some w')
        × ((later : ℕ)
            → (b : Bool) × (is_time_out t (record w' { now = now_steady later }) ≡ some b)
              × (b ≡ true → i * 1000000 + nano < later + 1000000)
              × (i * 1000000 + nano ≤ later → b ≡ true))
  unfolding start is_time_out now_steady now_steady_miil nano_to_milli
  start-bounds t i nano w o there =
      let e = nano / 1000000 + i in
      let o' : Timer F = record o { interals = some i; expired = some e } in
      let own : lookup t (insert t o' w.objects) ≡ some o' =
        ground (arith, lookup-insert t t o' w.objects) in
      (
        record w {
          now = nano / 1000000;
          manager = enable_timer heap w.manager t e;
          objects = insert t o' w.objects;
        },
        rw (start, there) refl,
        λ later. (
          leb e (later / 1000000),
          rw (is_time_out, own) refl,
          λ b. ground arith,
          λ b. ground arith,
        ),
      )
