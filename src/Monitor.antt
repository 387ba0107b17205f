-- ===== src/Monitor.antt =====
-- The counters of RPC_server/ServerMonitor.cc. A `long long` is a bit pattern of 64 bits, and what is
-- added is an `int`, extended by its sign.
pub mod Display
pub mod Peaks
pub mod Texts
mod Tests
use cpp_rpc.Prelude.{ℕ, ◌+◌, ◌-◌, ◌%◌, ◌^◌, Bool, true, false}
use cpp_rpc.Int32.{to_size, add_size}

pub record Monitor : Type 0 where
  pub exit : Bool
  pub connections : ℕ
  pub recv_bytes : ℕ
  pub send_bytes : ℕ
  pub recv_requests : ℕ
  pub send_responses : ℕ
  pub task_queue_size : ℕ
  pub running_workers : ℕ

-- The constructor leaves the last two unset: they are its arguments here.
unfoldable pub new_monitor : ℕ → ℕ → Monitor
new_monitor size count = record {
  exit = false;
  connections = 0;
  recv_bytes = 0;
  send_bytes = 0;
  recv_requests = 0;
  send_responses = 0;
  task_queue_size = size;
  running_workers = count;
}

unfoldable pub add_connections : Monitor → ℕ → Monitor
add_connections m n = record m { connections = add_size m.connections (to_size n) }

unfoldable pub remove_connections : Monitor → ℕ → Monitor
remove_connections m n = record m { connections = (m.connections + 2 ^ 64 - to_size n) % 2 ^ 64 }

unfoldable pub recv_bytes : Monitor → ℕ → Monitor
recv_bytes m n = record m { recv_bytes = add_size m.recv_bytes (to_size n) }

unfoldable pub send_bytes : Monitor → ℕ → Monitor
send_bytes m n = record m { send_bytes = add_size m.send_bytes (to_size n) }

unfoldable pub recv_requests : Monitor → ℕ → Monitor
recv_requests m n = record m { recv_requests = add_size m.recv_requests (to_size n) }

unfoldable pub send_responses : Monitor → ℕ → Monitor
send_responses m n = record m { send_responses = add_size m.send_responses (to_size n) }

unfoldable pub set_task_queue_size : Monitor → ℕ → Monitor
set_task_queue_size m size = record m { task_queue_size = to_size size }

unfoldable pub set_running_workers : Monitor → ℕ → Monitor
set_running_workers m count = record m { running_workers = to_size count }

unfoldable pub quit : Monitor → Monitor
quit m = record m { exit = true }
