-- ===== src/ResponseHandle/Expiry.antt =====
-- A request that gets no response: `read` of RPC_client/ResponseHandle.cc starts the handle's Timer, a round of
-- `TimerManager::run` calls `time_out`, and `read` goes on from its wait.
use cpp_rpc.Prelude.{ℕ, Option, none, some, List, [], ◌∷◌, ◌>>=◌, ◌==◌, if◌then◌else◌}
use cpp_rpc.Assoc.{nat_key}
use cpp_rpc.Heap.{HeapOps}
use cpp_rpc.ThreadPool.{Ready, wait}
use cpp_rpc.Timers.{deadline}
use cpp_rpc.Timers.Objects.{World, circle, new_timer, set_callback_func, start}
use cpp_rpc.ResponseHandle.{ResponseHandle, read}
use cpp_rpc.ResponseHandle.Outcome.{Step, times_out}

-- the Timer that the constructor makes
unfoldable pub handle_timer : {F : Type 0} → ℕ → World F → World F
handle_timer t w = new_timer t circle w

-- `ResponseHandle::read` up to its wait
unfoldable pub begin_read : {F : Type 0} → HeapOps deadline → ℕ → F → ℕ → World F → Option (World F)
begin_read heap t f timeout w = do (_, w') ← set_callback_func t (some f) w; start heap t timeout w'

-- `ResponseHandle::read` from one try of its wait on: the inner `none` while the thread stays blocked, and
-- otherwise the number that `read` returns, with the caller's array.
unfoldable pub finish_read : List ℕ → ℕ → ResponseHandle × Ready → Option (Option (ℕ × List ℕ))
finish_read buf max_len (h, r) = elim (wait h.tag r) [
  | none ↦ some none
  | some r' ↦ read buf max_len h >>= λ result. some (some result)
]

-- What the timers that a round calls back mean for the handle of timer `t`. The others are taken to notify
-- nothing: the callback of another handle would put its tag in the place of this one.
unfoldable pub expiries : ℕ → List ℕ → List Step
expiries t [] = []
expiries t (u ∷ us) = let rest = expiries t us in if u == t then times_out ∷ rest else rest
