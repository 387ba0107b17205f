-- ===== src/Timers/Tests.antt =====
-- Runs of the manager on small inputs, with the binary heap.
use cpp_rpc.Prelude.{
  ℕ, ◌≡◌, refl, Bool, true, false, ◌+◌, ◌*◌, ◌<◌, ◌≤◌, ◌>>=◌, Option, none, some, [], ◌∷◌, arith,
  Holds, Holds-then, drop,
}
use cpp_rpc.Assoc.{nat_key, lookup, insert}
use cpp_rpc.Heap.{HeapOps, IsHeap, key_at}
use cpp_rpc.Heap.Swap.{swap}
use cpp_rpc.Heap.Up.{sift_up}
use cpp_rpc.Heap.Down.{sift_down, smaller_child}
use cpp_rpc.Heap.Binary.{binary_heap, binary_push, binary_pop}
use cpp_rpc.Timers.{
  TimerEntry, Manager, deadline, on_range, find_timer, enable_timer, disable_timer, take_due,
  collect_due,
}
use cpp_rpc.Timers.Objects.{
  once, Timer, World, start, restart, rearm, invoke, time_out, time_outs, run_round, run,
  delete_timer, is_time_out,
}
use cpp_rpc.Timers.Clock.{now_steady, start-bounds}
use cpp_rpc.Timers.Entries.{count}
use cpp_rpc.Timers.Valid.{running, IsValid}
use cpp_rpc.Timers.Due.{Collected, collect_due-Collected}
use cpp_rpc.Timers.Run.{enable_timer-IsValid, HasValid, run-HasValid}

abbrev heap : HeapOps deadline
heap = binary_heap deadline

abbrev entry : ℕ → ℕ → TimerEntry
entry t e = record { timer = t; expired = e }

-- two timers that run and one that waits
abbrev three : Manager
three = record { timers = entry 1 10 ∷ entry 2 20 ∷ entry 3 0 ∷ []; actived_timers = 2 }

three-IsValid : IsValid three
unfolding key_at count
three-IsValid = record {
  bounded = omega arith;
  heap = λ c p q. let one : c ≡ 1 = omega arith in rw one (omega arith);
  distinct = λ t. ground arith;
}

enabled :
    enable_timer heap three 3 5
    ≡ record { timers = entry 3 5 ∷ entry 2 20 ∷ entry 1 10 ∷ []; actived_timers = 3 }
unfolding enable_timer on_range find_timer binary_push sift_up swap key_at
enabled = refl

collected : (collect_due heap 2 15 three).0 ≡ 1 ∷ []
unfolding collect_due take_due on_range binary_pop sift_down smaller_child swap key_at
collected = refl

-- Disabling a timer in the middle of a heap leaves one that is not in order.
abbrev six : Manager
six = record {
  timers = entry 1 1 ∷ entry 2 10 ∷ entry 3 2 ∷ entry 4 11 ∷ entry 5 12 ∷ entry 6 3 ∷ [];
  actived_timers = 6;
}

disordered :
    running (disable_timer heap six 4)
    ≡ entry 1 1 ∷ entry 2 10 ∷ entry 3 2 ∷ entry 6 3 ∷ entry 5 12 ∷ []
unfolding disable_timer on_range find_timer binary_pop sift_down smaller_child swap key_at
disordered = refl

collect_due-Collected_example : Collected heap 15 three (collect_due heap 2 15 three)
collect_due-Collected_example = collect_due-Collected heap 15 three three-IsValid

front_found : find_timer 1 (running three) ≡ some 0
unfolding find_timer
front_found = refl

none_runs :
    (pos : ℕ) → find_timer 3 (running three) ≡ some pos → IsHeap deadline (drop pos (running three))
unfolding find_timer
none_runs pos e = absurd cc

abbrev timer_of : Option ℕ → Timer ℕ
timer_of f = record { func = f; interals = some 10; expired = some 10; type = once }

-- The first timer calls back 3, the second nothing.
abbrev world : World ℕ
world = record {
  manager = three;
  objects = (1, timer_of (some 3)) ∷ (2, timer_of none) ∷ (3, timer_of none) ∷ [];
  stop_flag = false;
  now = 4;
}

abbrev starts : ℕ → World ℕ → Option (World ℕ)
starts f w = start heap f 10 w

starts-HasValid : (f : ℕ) (w : World ℕ) → HasValid heap w → Holds (HasValid heap) (starts f w)
unfolding start Holds
starts-HasValid f w v =
    Holds-then (HasValid heap) (lookup f w.objects) _
      λ o e. enable_timer-IsValid heap w.manager f (w.now + 10) v

run-HasValid_example : Holds (HasValid heap) (run heap starts (12 ∷ 30 ∷ []) world)
run-HasValid_example = run-HasValid heap starts starts-HasValid (12 ∷ 30 ∷ []) world three-IsValid

-- Both running timers time out, and the first has started the third.
ran :
    (run heap starts (25 ∷ []) world >>= λ w. some w.manager)
    ≡ some (record { timers = entry 3 35 ∷ entry 1 10 ∷ entry 2 20 ∷ []; actived_timers = 1 })
unfolding run run_round time_outs time_out restart rearm invoke start lookup insert collect_due
    take_due enable_timer find_timer on_range binary_push binary_pop sift_up sift_down smaller_child
    swap key_at
ran = refl

abbrev deletes : ℕ → World ℕ → Option (World ℕ)
deletes f w = some (delete_timer heap f w)

start-bounds_example :
    (w' : World ℕ) × (start heap 3 7 (record world { now = now_steady 4500000 }) ≡ some w')
    × ((later : ℕ)
        → (b : Bool) × (is_time_out 3 (record w' { now = now_steady later }) ≡ some b)
          × (b ≡ true → 7 * 1000000 + 4500000 < later + 1000000)
          × (7 * 1000000 + 4500000 ≤ later → b ≡ true))
unfolding lookup
start-bounds_example = start-bounds heap 3 7 4500000 world (timer_of none) refl

-- Both running timers are due, and the callback of the first deletes the second.
abbrev deleting : World ℕ
deleting = record {
  manager = three;
  objects = (1, timer_of (some 2)) ∷ (2, timer_of none) ∷ (3, timer_of none) ∷ [];
  stop_flag = false;
  now = 25;
}
