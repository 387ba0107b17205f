-- ===== src/ResponseHandle/ExpiryTests.antt =====
-- A request whose timer runs beside another.
use cpp_rpc.Prelude.{ℕ, false, some, [], ◌∷◌, none}
use cpp_rpc.Heap.{HeapOps}
use cpp_rpc.Heap.Binary.{binary_heap}
use cpp_rpc.Timers.{Manager, deadline}
use cpp_rpc.Timers.Objects.{World, once}

abbrev heap : HeapOps deadline
heap = binary_heap deadline

abbrev running_one : Manager
running_one = record { timers = record { timer = 1; expired = 10 } ∷ []; actived_timers = 1 }

abbrev world : World ℕ
world = record {
  manager = running_one;
  objects = (1, record { func = none; interals = some 6; expired = some 10; type = once }) ∷ [];
  stop_flag = false;
  now = 4;
}
