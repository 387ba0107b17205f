-- ===== src/ThreadPool/Tests.antt =====
-- Schedules of RPC_util/ThreadPool.hpp with two workers, and the theorems about them there.
use cpp_rpc.Prelude.{
  ◌≤◌, ℕ, ◌+◌, ◌<◌, ◌≡◌, refl, ◌⊎◌, inl, inr, none, some, Option, List, [], ◌∷◌, ◌++◌, arith, Bool,
  true, length, map, replicate, get_elem?,
}
use cpp_rpc.ThreadPool.Joins.{Act, others, quits, act, run_quit, quit_joins}
use cpp_rpc.ThreadPool.Loses.{wait_for_job_finish_loses}
use cpp_rpc.ThreadPool.{
  testing, clear, clearing, exiting, joining, returned, is_exited, quit_step, append_callback,
  callback_task, Pool, Event, works, pushes, admits, notifies, run, step, new_pool, waiting, exited,
  calling, worker_step, work, take_task, wait, is_task, push_task, append_task, append_notify,
  notify_all, notify, admit, Pc,
}
use cpp_rpc.ThreadPool.Queue.{QueueCall, append, take}
use cpp_rpc.ThreadPool.Count.{total, awake, busy, running_lem}
use cpp_rpc.ThreadPool.Knows.{signal, active}
use cpp_rpc.ThreadPool.Wakeup.{AllReal, no_lost_wakeup}
use cpp_rpc.ThreadPool.Quit.{quit_acts, winner_acts, turn, quit_hangs}

-- worker 0 starts, finds nothing and waits
abbrev parks : List (Event ℕ)
parks = works 0 ∷ works 0 ∷ works 0 ∷ works 0 ∷ []

-- a client appends task 7
abbrev appends : List (Event ℕ)
appends = admits ∷ pushes (some 7) ∷ notifies ∷ []

-- worker 0 is woken and comes to call the task
abbrev calls : List (Event ℕ)
calls = works 0 ∷ works 0 ∷ works 0 ∷ works 0 ∷ works 0 ∷ works 0 ∷ []

abbrev day : List (Event ℕ)
day = parks ++ (appends ++ calls)

day_runs :
    let p = run (new_pool 2) day in
    (get_elem? p.workers 0 ≡ some (calling (some 7)))
    × (p.shared.running ≡ 2)
    × (p.shared.tasks ≡ [])
unfolding run step new_pool worker_step work take_task wait is_task push_task append_task
    append_notify notify_all notify admit
day_runs = (refl, refl, refl)

running_lem_example :
    let p = run (new_pool 2) day in p.shared.running ≡ total awake p.workers + total busy p.workers
running_lem_example = running_lem 2 day (omega arith)

no_lost_wakeup_example :
    let p = run (new_pool 2) (parks ++ appends) in
    (p.shared.exit ≡ true)
    ⊎ ((length p.shared.tasks ≡ 0)
        ⊎ (0 < p.pushed + signal p.shared.ready + total active p.workers))
unfolding is_task
no_lost_wakeup_example = no_lost_wakeup 2 (parks ++ appends) reals
  where
    reals : AllReal (parks ++ appends)
    reals = (tt, (tt, (tt, (tt, (tt, (refl, (tt, tt)))))))

abbrev both_wait : Pool ℕ
both_wait = record {
  shared = record {
    tasks = [];
    ready = cpp_rpc.ThreadPool.unset;
    exit = cpp_rpc.Prelude.false;
    running = 0;
  };
  workers = waiting ∷ waiting ∷ [];
  admitted = 0;
  pushed = 0;
}

quit_hangs_example :
    (p : Pool ℕ) × (i : ℕ) × (run_quit
        (quit_acts 2 ++ (winner_acts ++ map turn (some 1 ∷ none ∷ some 0 ∷ none ∷ none ∷ [])))
        (both_wait, clearing)
      ≡ (p, joining i))
    × (i ≤ 1)
    × (p.workers ≡ exited ∷ waiting ∷ [])
quit_hangs_example = quit_hangs both_wait 0 (some 1 ∷ none ∷ some 0 ∷ none ∷ none ∷ []) refl refl

abbrev mixed : List (QueueCall ℕ)
mixed = append 4 ∷ take ∷ take ∷ append 5 ∷ append 6 ∷ take ∷ []

-- a pool of one worker, which has found nothing, and then a client appends task 7
abbrev found_nothing : Pool ℕ
found_nothing = record {
  shared = record {
    tasks = some 7 ∷ [];
    ready = cpp_rpc.ThreadPool.tag 1;
    exit = cpp_rpc.Prelude.false;
    running = 1;
  };
  workers = testing none ∷ [];
  admitted = 0;
  pushed = 0;
}

found_nothing_reached : run (new_pool 1) (works 0 ∷ works 0 ∷ appends) ≡ found_nothing
unfolding run step new_pool worker_step work take_task push_task append_task append_notify
    notify_all notify admit
found_nothing_reached = refl

wait_for_job_finish_loses_example :
    (acts : List (Act ℕ)) × (p : Pool ℕ) × (run_quit acts (found_nothing, exiting) ≡ (p, returned))
    × (p.shared.tasks ≡ some 7 ∷ [])
    × (p.workers ≡ exited ∷ [])
wait_for_job_finish_loses_example =
    wait_for_job_finish_loses found_nothing 1 refl refl (omega arith)

abbrev quitting_acts : List (Act ℕ)
quitting_acts = quits ∷ quits ∷ replicate 3 (others (works 0)) ++ replicate 5 quits

abbrev quit_pool : Pool ℕ
quit_pool = record {
  shared = record { tasks = []; ready = cpp_rpc.ThreadPool.tag 1; exit = true; running = 0 };
  workers = exited ∷ [];
  admitted = 0;
  pushed = 0;
}

quit_returns : run_quit quitting_acts (found_nothing, clearing) ≡ (quit_pool, returned)
unfolding run_quit act quit_step is_exited step worker_step work is_task notify_all notify clear
quit_returns = refl

quit_joins_example : quit_pool.workers ≡ exited ∷ []
quit_joins_example =
    quit_joins quitting_acts found_nothing quit_pool clearing (inl refl) quit_returns

-- the task that the overload with a callback binds: 3 is doubled when the task runs
abbrev doubles : ℕ → ℕ → Option (ℕ × ℕ)
doubles a w = some (a + a, w)

abbrev adds : ℕ → ℕ → Option ℕ
adds b w = some (b + w)

callback_runs :
    (t : ℕ → Option ℕ) × (append_callback adds doubles 3 [] ≡ some t ∷ []) × (t 10 ≡ some 16)
unfolding append_callback callback_task append_task
callback_runs = (callback_task adds doubles 3, refl, refl)
