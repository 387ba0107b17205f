-- ===== src/ThreadPool.antt =====
-- RPC_util/ThreadPool.hpp: the task queue, the condition with its one-shot flag, and the worker
-- threads that share them.
-- A `std::function` is an `Option`, `none` the empty one. A mutex makes a queue or condition
-- operation one step, and so is each access of the atomics `m_exit` and `m_running`; a worker's
-- program counter says which comes next. A schedule is a list of events, so every interleaving of
-- the threads is one list.
pub mod Queue
pub mod Count
pub mod Knows
pub mod Keeps
pub mod Wakeup
pub mod Quit
pub mod Joined
pub mod Joins
pub mod Loses
mod Tests
use cpp_rpc.Prelude.{
  ℕ, zero, suc, Bool, true, false, not, ◌&&◌, Option, none, some, List, [], ◌∷◌, ◌++◌, ◌==◌, ◌>>=◌,
  if◌then◌else◌, get_elem?, set, length, replicate,
}
use cpp_rpc.Int32.{add_int, sub_int}

-- `Condition`: `m_ready` is the tag of the last notification, or -1.
pub data Ready : Type 0 where
  unset : Ready
  tag : ℕ → Ready

unfoldable pub notify : ℕ → Ready → Ready
notify target r = tag target

-- One try of `wait`: `none` while the thread stays blocked.
unfoldable pub wait : ℕ → Ready → Option Ready
wait target unset = none
wait target (tag t) = if t == target then some unset else none

-- `TaskQueue`, the oldest task first
module _ {A : Type 0} where
  unfoldable pub append_task : List A → A → List A
  append_task tasks t = tasks ++ t ∷ []

  -- `take_task`: the empty function where there is no task
  pub take_task : List (Option A) → Option A × List (Option A)
  take_task [] = (none, [])
  take_task (t ∷ tasks) = (t, tasks)

  pub clear : List A → List A
  clear tasks = []

  pub task_queue_size : List A → ℕ
  task_queue_size tasks = length tasks

-- The overload with a callback: the task that it binds runs `f` on its arguments, and then the callback
-- on the result, both when the task is called. A task acts on a world `W`.
module _ {W A B : Type 0} (callback : B → W → Option W) (f : A → W → Option (B × W)) where
  unfoldable pub callback_task : A → W → Option W
  callback_task args w = f args w >>= λ (b, w'). callback b w'

  unfoldable pub append_callback : A → List (Option (W → Option W)) → List (Option (W → Option W))
  append_callback args tasks = append_task tasks (some (callback_task args))

-- where a thread stands in `do_work`
pub data Pc (A : Type 0) : Type 0 where
  entering taking parking waiting woken leaving exited finishing : Pc A
  testing testing_exit starting calling : Option A → Pc A

-- what the threads share
pub record Shared (A : Type 0) : Type 0 where
  pub tasks : List (Option A)
  pub ready : Ready
  pub exit : Bool
  pub running : ℕ

pub is_task : {A : Type 0} → Option A → Bool
is_task none = false
is_task (some t) = true

-- One step of `do_work`: the shared state and the program counter after it, `none` where the thread
-- is blocked or has returned. A call of an empty function, which throws, has no step either.
pub work : {A : Type 0} → Shared A → Pc A → Option (Shared A × Pc A)
work s entering = some (record s { running = add_int s.running 1 }, taking)
work s taking = let (t, rest) = take_task s.tasks in some (record s { tasks = rest }, testing t)
work s (testing t) =
    if not (is_task t) && not s.exit then some (s, parking) else some (s, testing_exit t)
work s parking = some (record s { running = sub_int s.running 1 }, waiting)
work s waiting = elim (wait 1 s.ready) [
  | none ↦ none
  | some r ↦ some (record s { ready = r }, woken)
]
work s woken = some (record s { running = add_int s.running 1 }, taking)
work s (testing_exit t) =
    if not (is_task t) && s.exit then some (s, leaving) else some (s, starting t)
work s leaving = some (record s { running = sub_int s.running 1 }, exited)
work s exited = none
work s (starting t) = some (record s { running = add_int s.running 1 }, calling t)
work s (calling none) = none
work s (calling (some t)) = some (s, finishing)
work s finishing = some (record s { running = sub_int s.running 1 }, taking)

-- The pool: what is shared, its workers, and how many calls of `append_task` have found `m_exit`
-- unset and not pushed yet, and have pushed and not notified yet.
pub record Pool (A : Type 0) : Type 0 where
  pub shared : Shared A
  pub workers : List (Pc A)
  pub admitted : ℕ
  pub pushed : ℕ

-- `ThreadPool::ThreadPool(int)`
unfoldable pub new_pool : {A : Type 0} → ℕ → Pool A
new_pool threads = record {
  shared = record { tasks = []; ready = unset; exit = false; running = 0 };
  workers = replicate threads entering;
  admitted = 0;
  pushed = 0;
}

-- What happens next: a worker moves; a client of `append_task` tests `m_exit`, pushes its task, or
-- notifies; `quit` clears the queue, sets `m_exit`, or notifies once; `wait_for_job_finish` is `quit`
-- without the clearing.
pub data Event (A : Type 0) : Type 0 where
  works : ℕ → Event A
  pushes : Option A → Event A
  admits notifies clears sets_exit quit_notifies : Event A

module _ {A : Type 0} where
  pub worker_step : Pool A → ℕ → Pool A
  worker_step p i = elim (get_elem? p.workers i) [
    | none ↦ p
    | some pc ↦ elim (work p.shared pc) [
      | none ↦ p
      | some (s, pc') ↦ record p { shared = s; workers = set p.workers i pc' }
    ]
  ]

  -- `if (!m_exit)` of `append_task`
  unfoldable pub admit : Pool A → Pool A
  admit p = if p.shared.exit then p else record p { admitted = suc p.admitted }

  unfoldable pub push_task : Pool A → ℕ → Option A → Pool A
  push_task p zero t = p
  push_task p (suc k) t =
      let s = p.shared in
      record p {
        shared = record s { tasks = append_task s.tasks t };
        admitted = k;
        pushed = suc p.pushed;
      }

  unfoldable pub notify_all : Shared A → Shared A
  notify_all s = record s { ready = notify 1 s.ready }

  -- the `notify_all` of an `append_task` that has pushed
  unfoldable pub append_notify : Pool A → ℕ → Pool A
  append_notify p zero = p
  append_notify p (suc k) = record p { shared = notify_all p.shared; pushed = k }

  unfoldable pub step : Pool A → Event A → Pool A
  step p (works i) = worker_step p i
  step p admits = admit p
  step p (pushes t) = push_task p p.admitted t
  step p notifies = append_notify p p.pushed
  step p clears = record p { shared = record (p.shared) { tasks = clear (p.shared.tasks) } }
  step p sets_exit = record p { shared = record (p.shared) { exit = true } }
  step p quit_notifies = record p { shared = notify_all p.shared }

  unfoldable pub run : Pool A → List (Event A) → Pool A
  run p [] = p
  run p (e ∷ es) = run (step p e) es

-- where a thread stands in `quit`; `wait_for_job_finish` is the same from `exiting` on
pub data QuitPc : Type 0 where
  clearing exiting polling returned : QuitPc
  notifying joining : ℕ → QuitPc

pub is_exited : {A : Type 0} → Pc A → Bool
is_exited exited = true
is_exited pc = false

module _ {A : Type 0} where
  -- One step of `quit`: `none` where it has returned, or is blocked in the join of a thread that runs.
  pub quit_step : Pool A → QuitPc → Option (Pool A × QuitPc)
  quit_step p clearing = some (step p clears, exiting)
  quit_step p exiting = some (step p sets_exit, polling)
  quit_step p polling =
      some (p, if p.shared.running == 0 then notifying (length p.workers) else polling)
  quit_step p (notifying zero) = some (p, joining 0)
  quit_step p (notifying (suc k)) = some (step p quit_notifies, notifying k)
  quit_step p (joining i) = elim (get_elem? p.workers i) [
    | none ↦ some (p, returned)
    | some pc ↦ if is_exited pc then some (p, joining (suc i)) else none
  ]
  quit_step p returned = none
