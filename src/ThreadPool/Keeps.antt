-- ===== src/ThreadPool/Keeps.antt =====
-- What one step of a worker of RPC_util/ThreadPool.hpp keeps.
use cpp_rpc.Prelude.{
  ◌+◌, ◌≤◌, ◌≡◌, refl, ap, ◌⊎◌, inl, inr, Bool, true, false, not, ◌&&◌, Option, none, some, List,
  [], ◌∷◌, arith, if◌then◌else◌, length, ◌==◌, Bool-cases,
}
use cpp_rpc.ThreadPool.{
  Ready, unset, tag, Pc, taking, parking, waiting, woken, leaving, exited, testing, testing_exit,
  starting, calling, Shared, work, wait, take_task, is_task,
}
use cpp_rpc.ThreadPool.Knows.{signal, signal-le, one_if, active, AllTasks, Knows}

module _ {A : Type 0} where
  -- what one step of a worker keeps
  pub record Kept (s s' : Shared A) (pc pc' : Pc A) : Type 0 where
    pub same_exit : s'.exit ≡ s.exit
    pub no_more : length s'.tasks ≤ length s.tasks
    pub tasks : AllTasks s'.tasks
    pub knows : Knows s'.exit pc'
    pub fetched :
        (s.exit ≡ true)
        ⊎ ((length s'.tasks ≡ 0) ⊎ (signal s.ready + active pc ≤ signal s'.ready + active pc'))

  abbrev pub KeptBy : Shared A → Pc A → Option (Shared A × Pc A) → Type 0
  KeptBy s pc none = Unit {0}
  KeptBy s pc (some (s', pc')) = Kept s s' pc pc'

  take_keeps :
      (s : Shared A) (ts : List (Option A))
      → s.tasks ≡ ts
      → AllTasks ts
      → KeptBy s taking (some (record s { tasks = (take_task ts).1 }, testing (take_task ts).0))
  unfolding take_task active one_if is_task
  take_keeps s [] h a = record {
    same_exit = refl;
    no_more = omega arith;
    tasks = tt;
    knows = tt;
    fetched = inr (inl refl);
  }
  take_keeps s (some t ∷ ts) h a = record {
    same_exit = refl;
    no_more = omega (arith, ap length h);
    tasks = a.1;
    knows = tt;
    fetched = inr (inr (omega arith));
  }
  take_keeps s (none ∷ ts) h a = absurd (ground (arith, a.0))

  test_keeps :
      (s : Shared A) (e : Bool)
      → s.exit ≡ e
      → AllTasks s.tasks
      → KeptBy s (testing none) (
          if not (is_task {A = A} none) && not e
          then some (s, parking)
          else some (s, testing_exit none))
  unfolding active one_if is_task
  test_keeps s false h a = record {
    same_exit = refl;
    no_more = omega arith;
    tasks = a;
    knows = tt;
    fetched = inr (inr (omega arith));
  }
  test_keeps s true h a = record {
    same_exit = refl;
    no_more = omega arith;
    tasks = a;
    knows = inr h;
    fetched = inl h;
  }

  test_exit_keeps :
      (s : Shared A) (e : Bool)
      → s.exit ≡ e
      → AllTasks s.tasks
      → Knows {A = A} e (testing_exit none)
      → KeptBy s
          (testing_exit none)
          (if not (is_task {A = A} none) && e then some (s, leaving) else some (s, starting none))
  unfolding active one_if is_task
  test_exit_keeps s false h a k = absurd (ground (arith, k))
  test_exit_keeps s true h a k = record {
    same_exit = refl;
    no_more = omega arith;
    tasks = a;
    knows = h;
    fetched = inl h;
  }

  wake_keeps :
      (s : Shared A) (r : Ready)
      → s.ready ≡ r
      → AllTasks s.tasks
      → KeptBy s waiting
          (elim (wait 1 r) [ none ↦ none | some q ↦ some (record s { ready = q }, woken) ])
  unfolding wait signal active
  wake_keeps s unset h a = tt
  wake_keeps s (tag t) h a = elim (Bool-cases (t == 1)) [
    | inl e ↦ rw e (record {
      same_exit = refl;
      no_more = omega arith;
      tasks = a;
      knows = tt;
      fetched = inr (inr (signal-le s.ready));
    })
    | inr e ↦ rw e tt
  ]

  pub work_keeps :
      (s : Shared A) (pc : Pc A) → AllTasks s.tasks → Knows s.exit pc → KeptBy s pc (work s pc)
  unfolding work active one_if is_task
  work_keeps s taking a k = take_keeps s s.tasks refl a
  work_keeps s (testing none) a k = test_keeps s s.exit refl a
  work_keeps s (testing_exit none) a k = test_exit_keeps s s.exit refl a k
  work_keeps s waiting a k = wake_keeps s s.ready refl a
  work_keeps s exited a k = tt
  work_keeps s (calling none) a k = tt
  work_keeps s (starting none) a k = absurd (ground (arith, k))
  work_keeps s (starting (some t)) a k = record {
    same_exit = refl;
    no_more = omega arith;
    tasks = a;
    knows = refl;
    fetched = inr (inr (omega arith));
  }
  work_keeps s (testing_exit (some t)) a k = record {
    same_exit = refl;
    no_more = omega arith;
    tasks = a;
    knows = refl;
    fetched = inr (inr (omega arith));
  }
  work_keeps s (testing (some t)) a k = record {
    same_exit = refl;
    no_more = omega arith;
    tasks = a;
    knows = inl refl;
    fetched = inr (inr (omega arith));
  }
  work_keeps s leaving a k = record {
    same_exit = refl;
    no_more = omega arith;
    tasks = a;
    knows = tt;
    fetched = inl k;
  }
  work_keeps s _ a k = record {
    same_exit = refl;
    no_more = omega arith;
    tasks = a;
    knows = tt;
    fetched = inr (inr (omega arith));
  }
