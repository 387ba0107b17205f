-- ===== src/ThreadPool/Wakeup.antt =====
-- No task of RPC_util/ThreadPool.hpp waits in the queue while nobody is on the way to fetch it, and
-- no worker calls an empty function.
use cpp_rpc.Prelude.{
  ℕ, zero, suc, ◌+◌, ◌<◌, ◌≡◌, refl, ◌⊎◌, inl, inr, Bool, true, false, Option, none, some,
  Option-cases, List, [], ◌∷◌, arith, if◌then◌else◌, get_elem?, set, length, replicate,
}
use mathlib.Core.Path.{subst}
use cpp_rpc.ThreadPool.{
  notify, append_task, clear, Pc, entering, calling, Shared, Pool, Event, works, pushes, admits,
  notifies, clears, sets_exit, quit_notifies, work, is_task, worker_step, push_task, append_notify,
  admit, notify_all, step, run, new_pool,
}
use cpp_rpc.ThreadPool.Count.{total, total-set}
use cpp_rpc.ThreadPool.Knows.{
  signal, active, Knows, AllKnow, NoneLost, AllKnow-get, AllKnow-set, AllKnow-exit, AllTasks-append,
}
use cpp_rpc.ThreadPool.Keeps.{Kept, KeptBy, work_keeps}

module _ {A : Type 0} where
  moved-NoneLost :
      (p : Pool A) (i : ℕ) (pc : Pc A) (s : Shared A) (pc' : Pc A)
      → get_elem? p.workers i ≡ some pc
      → Kept p.shared s pc pc'
      → NoneLost p
      → NoneLost (record p { shared = s; workers = set p.workers i pc' })
  moved-NoneLost p i pc s pc' e k v = record {
    tasks = k.tasks;
    knows = rw (k.same_exit) (
        AllKnow-set p.shared.exit p.workers i pc' (subst (λ x. Knows x pc') k.same_exit k.knows)
          v.knows);
    fetched = ground (
      arith,
      k.no_more,
      k.same_exit,
      k.fetched,
      v.fetched,
      total-set active p.workers i pc pc' e,
    );
  }

  -- `worker_step` with the two lookups named
  worker_step-NoneLost : (p : Pool A) (i : ℕ) → NoneLost p → NoneLost (worker_step p i)
  unfolding worker_step
  worker_step-NoneLost p i v = elim (Option-cases (get_elem? p.workers i)) [
    | inl e ↦ rw (e, worker_step) v
    | inr (pc, e) ↦
        rw (e, worker_step)
          (go pc e (work p.shared pc)
            (work_keeps p.shared pc v.tasks (AllKnow-get p.shared.exit p.workers i pc e v.knows)))
  ]
    where
      go :
          (pc : Pc A)
          → get_elem? p.workers i ≡ some pc
          → (r : Option (Shared A × Pc A)) → KeptBy p.shared pc r
          → NoneLost (elim r [
            | none ↦ p
            | some (s, pc') ↦ record p { shared = s; workers = set p.workers i pc' }
          ])
      go pc e none k = v
      go pc e (some (s, pc')) k = moved-NoneLost p i pc s pc' e k v

  -- Only functions that are not empty are appended.
  abbrev pub IsReal : Event A → Type 0
  IsReal (pushes t) = is_task t ≡ true
  IsReal e = Unit {0}

  abbrev pub AllReal : List (Event A) → Type 0
  AllReal [] = Unit {0}
  AllReal (e ∷ es) = IsReal e × AllReal es

  push_task-NoneLost :
      (p : Pool A) (k : ℕ) (t : Option A)
      → is_task t ≡ true
      → NoneLost p
      → NoneLost (push_task p k t)
  unfolding push_task append_task is_task
  push_task-NoneLost p zero t h v = v
  push_task-NoneLost p (suc k) none h v = absurd (ground (arith, h))
  push_task-NoneLost p (suc k) (some t) h v = record {
    tasks = AllTasks-append p.shared.tasks t v.tasks;
    knows = v.knows;
    fetched = inr (inr (omega arith));
  }

  append_notify-NoneLost :
      (p : Pool A) (k : ℕ) → p.pushed ≡ k → NoneLost p → NoneLost (append_notify p k)
  unfolding append_notify notify_all notify signal
  append_notify-NoneLost p zero h v = v
  append_notify-NoneLost p (suc k) h v = record {
    tasks = v.tasks;
    knows = v.knows;
    fetched = inr (inr (omega arith));
  }

  admit_if-NoneLost :
      (p : Pool A) (b : Bool)
      → NoneLost p
      → NoneLost (if b then p else record p { admitted = suc p.admitted })
  admit_if-NoneLost p true v = v
  admit_if-NoneLost p false v = record { tasks = v.tasks; knows = v.knows; fetched = v.fetched }

  step-NoneLost : (p : Pool A) (e : Event A) → IsReal e → NoneLost p → NoneLost (step p e)
  unfolding step admit notify_all notify signal clear
  step-NoneLost p (works i) h v = worker_step-NoneLost p i v
  step-NoneLost p (pushes t) h v = push_task-NoneLost p p.admitted t h v
  step-NoneLost p admits h v = admit_if-NoneLost p p.shared.exit v
  step-NoneLost p notifies h v = append_notify-NoneLost p p.pushed refl v
  step-NoneLost p clears h v = record { tasks = tt; knows = v.knows; fetched = inr (inl refl) }
  step-NoneLost p sets_exit h v = record {
    tasks = v.tasks;
    knows = AllKnow-exit p.workers p.shared.exit v.knows;
    fetched = inl refl;
  }
  step-NoneLost p quit_notifies h v = record {
    tasks = v.tasks;
    knows = v.knows;
    fetched = inr (inr (omega arith));
  }

  run-NoneLost : (p : Pool A) (es : List (Event A)) → AllReal es → NoneLost p → NoneLost (run p es)
  unfolding run
  run-NoneLost p [] h v = v
  run-NoneLost p (e ∷ es) h v = run-NoneLost (step p e) es h.1 (step-NoneLost p e h.0 v)

  AllKnow-start : (pc : Pc A) → Knows false pc → (n : ℕ) → AllKnow false (replicate n pc)
  AllKnow-start pc k zero = tt
  AllKnow-start pc k (suc n) = (k, AllKnow-start pc k n)

  new_pool-NoneLost : (n : ℕ) → NoneLost {A = A} (new_pool n)
  unfolding new_pool
  new_pool-NoneLost n = record {
    tasks = tt;
    knows = AllKnow-start entering tt n;
    fetched = inr (inl refl);
  }

  -- On every schedule that appends no empty function: while the pool is not told to exit and tasks
  -- are queued, a worker is on its way to the queue, or a notification lies there for one, or a
  -- client is about to notify.
  pub no_lost_wakeup :
      (n : ℕ) (es : List (Event A))
      → AllReal es
      → let p = run (new_pool n) es in
        (p.shared.exit ≡ true)
        ⊎ ((length p.shared.tasks ≡ 0)
            ⊎ (0 < p.pushed + signal p.shared.ready + total active p.workers))
  no_lost_wakeup n es h = (run-NoneLost (new_pool n) es h (new_pool-NoneLost n)).fetched

  -- No worker comes to call an empty function: what it calls it has tested.
  pub calls_task :
      (n : ℕ) (es : List (Event A)) (i : ℕ) (t : Option A)
      → AllReal es
      → get_elem? (run (new_pool n) es).workers i ≡ some (calling t)
      → is_task t ≡ true
  calls_task n es i t h g =
      let p = run (new_pool n) es in
      AllKnow-get p.shared.exit p.workers i (calling t) g
        (run-NoneLost (new_pool n) es h (new_pool-NoneLost n)).knows
