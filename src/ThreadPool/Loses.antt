-- ===== src/ThreadPool/Loses.antt =====
-- `wait_for_job_finish` of RPC_util/ThreadPool.hpp and a task that nobody takes: a worker that has found no
-- task and reads `m_exit` afterwards takes an exit for the end of the work.
use cpp_rpc.Prelude.{
  ℕ, zero, suc, ◌<◌, ◌≡◌, ◌^◌, refl, sym, ap, ◌∙◌, true, none, some, List, [], ◌∷◌, ◌++◌, arith,
  get_elem?, set, length, replicate,
}
use cpp_rpc.Int32.{sub_int}
use cpp_rpc.ThreadPool.{
  Pc, exited, leaving, testing, testing_exit, Pool, Shared, works, work, is_task, worker_step,
  notify_all, step, quit_notifies, QuitPc, exiting, polling, returned, notifying, joining,
  is_exited, quit_step,
}
use cpp_rpc.ThreadPool.Joins.{Act, others, quits, act, run_quit}

-- 1 off an `int`, that many times
sub_times : ℕ → ℕ → ℕ
sub_times zero r = r
sub_times (suc m) r = sub_times m (sub_int r 1)

sub_times_all : (m : ℕ) → m < 2 ^ 32 → sub_times m m ≡ 0
unfolding sub_times
sub_times_all zero h = refl
sub_times_all (suc m) h =
    let e : sub_int (suc m) 1 ≡ m = omega arith in rw e (sub_times_all m (omega arith))

module _ {A : Type 0} where
  run_quit-append :
      (ds bs : List (Act A)) (q : Pool A × QuitPc)
      → run_quit (ds ++ bs) q ≡ run_quit bs (run_quit ds q)
  unfolding run_quit
  run_quit-append [] bs q = refl
  run_quit-append (a ∷ ds) bs q = run_quit-append ds bs (act a q)

  -- the worker at `k`, behind `k` others
  get_elem?-at :
      (k : ℕ) (x pc : Pc A) (ws : List (Pc A)) → get_elem? (replicate k x ++ pc ∷ ws) k ≡ some pc
  get_elem?-at zero x pc ws = refl
  get_elem?-at (suc k) x pc ws = get_elem?-at k x pc ws

  set-at :
      (k : ℕ) (x pc pc' : Pc A) (ws : List (Pc A))
      → set (replicate k x ++ pc ∷ ws) k pc' ≡ replicate k x ++ pc' ∷ ws
  set-at zero x pc pc' ws = refl
  set-at (suc k) x pc pc' ws = ap (◌∷◌ x) (set-at k x pc pc' ws)

  replicate-snoc :
      (k : ℕ) (x : Pc A) (ws : List (Pc A)) → replicate k x ++ x ∷ ws ≡ replicate (suc k) x ++ ws
  replicate-snoc zero x ws = refl
  replicate-snoc (suc k) x ws = ap (◌∷◌ x) (replicate-snoc k x ws)

  -- the pool while the thread waits, at `m_running` = `r`
  leaving_pool : Pool A → ℕ → List (Pc A) → Pool A
  leaving_pool p r ws = record p {
    shared = record (p.shared) { exit = true; running = r };
    workers = ws;
  }

  moves :
      (p : Pool A) (k : ℕ) (pc pc' : Pc A) (ws : List (Pc A)) (s : Shared A)
      → p.workers ≡ replicate k exited ++ pc ∷ ws
      → work p.shared pc ≡ some (s, pc')
      → worker_step p k ≡ record p { shared = s; workers = replicate k exited ++ pc' ∷ ws }
  unfolding worker_step
  moves p k pc pc' ws s e w =
      let at : get_elem? p.workers k ≡ some pc =
        ap (λ xs. get_elem? xs k) e ∙ get_elem?-at k exited pc ws in
      let there : set p.workers k pc' ≡ replicate k exited ++ pc' ∷ ws =
        ap (λ xs. set xs k pc') e ∙ set-at k exited pc pc' ws in
      rw (worker_step, at) (rw w (rw there refl))

  -- the three steps of a worker from its test to its return
  leaves :
      (p : Pool A) (r k : ℕ) (ws : List (Pc A)) (pc : QuitPc)
      → run_quit
          (replicate 3 (others (works k)))
          (leaving_pool p r (replicate k exited ++ testing none ∷ ws), pc)
        ≡ (leaving_pool p (sub_int r 1) (replicate (suc k) exited ++ ws), pc)
  unfolding run_quit act step leaving_pool work is_task
  leaves p r k ws pc =
      let q = leaving_pool p r in
      let q' = leaving_pool p (sub_int r 1) in
      let one =
        moves (q (replicate k exited ++ testing none ∷ ws)) k (testing none) (testing_exit none) ws
          (q []).shared refl refl in
      let two =
        moves (q (replicate k exited ++ testing_exit none ∷ ws)) k (testing_exit none) leaving ws
          (q []).shared refl refl in
      let three =
        moves (q (replicate k exited ++ leaving ∷ ws)) k leaving exited ws (q' []).shared refl
          refl in
      rw (one, two, three, replicate-snoc k exited ws) refl

  leave_acts : ℕ → ℕ → List (Act A)
  leave_acts k zero = []
  leave_acts k (suc m) = replicate 3 (others (works k)) ++ leave_acts (suc k) m

  all_leave :
      (p : Pool A) (r k m : ℕ) (pc : QuitPc)
      → run_quit
          (leave_acts k m)
          (leaving_pool p r (replicate k exited ++ replicate m (testing none)), pc)
        ≡ (leaving_pool p (sub_times m r) (replicate k exited ++ replicate m exited), pc)
  unfolding leave_acts sub_times run_quit
  all_leave p r k zero pc = refl
  all_leave p r k (suc m) pc =
      run_quit-append (replicate 3 (others (works k))) (leave_acts (suc k) m)
        (leaving_pool p r (replicate k exited ++ replicate (suc m) (testing none)), pc)
      ∙ ap (run_quit (leave_acts (suc k) m)) (leaves p r k (replicate m (testing none)) pc)
      ∙ all_leave p (sub_int r 1) (suc k) m pc
      ∙ ap (λ ws. (leaving_pool p (sub_times m (sub_int r 1)) ws, pc))
          (sym (replicate-snoc k exited (replicate m exited)))

  notifies_all :
      (q : Pool A) (k : ℕ)
      → (q' : Pool A) × (run_quit (replicate (suc k) quits) (q, notifying k) ≡ (q', joining 0))
        × (q'.workers ≡ q.workers)
        × (q'.shared.tasks ≡ q.shared.tasks)
  unfolding run_quit act quit_step step notify_all
  notifies_all q zero = (q, refl, refl, refl)
  notifies_all q (suc k) = notifies_all (step q quit_notifies) k

  get_elem?-end : (k : ℕ) (x : Pc A) → get_elem? (replicate k x ++ []) k ≡ none
  get_elem?-end zero x = refl
  get_elem?-end (suc k) x = get_elem?-end k x

  joins_one :
      (q : Pool A) (i : ℕ)
      → get_elem? q.workers i ≡ some exited
      → act quits (q, joining i) ≡ (q, joining (suc i))
  unfolding act quit_step is_exited
  joins_one q i e = rw (act, quit_step, e) refl

  joins_end :
      (q : Pool A) (i : ℕ) → get_elem? q.workers i ≡ none → act quits (q, joining i) ≡ (q, returned)
  unfolding act quit_step
  joins_end q i e = rw (act, quit_step, e) refl

  joins_all :
      (q : Pool A) (i m : ℕ)
      → q.workers ≡ replicate i exited ++ replicate m exited
      → run_quit (replicate (suc m) quits) (q, joining i) ≡ (q, returned)
  unfolding run_quit
  joins_all q i zero e = joins_end q i (ap (λ ws. get_elem? ws i) e ∙ get_elem?-end i exited)
  joins_all q i (suc m) e =
      ap (run_quit (replicate (suc m) quits)) (
        joins_one q i
          (ap (λ ws. get_elem? ws i) e ∙ get_elem?-at i exited exited (replicate m exited)))
      ∙ joins_all q (suc i) m (e ∙ replicate-snoc i exited (replicate m exited))

  -- `wait_for_job_finish` does not wait for every job: if it is called while each of the workers has just
  -- found the queue empty and not read `m_exit` yet, and tasks have been queued since, then on some
  -- schedule it returns with all those tasks in the queue and no worker left to run them.
  pub wait_for_job_finish_loses :
      (p : Pool A) (n : ℕ)
      → p.workers ≡ replicate n (testing none)
      → p.shared.running ≡ n
      → n < 2 ^ 32
      → (acts : List (Act A)) × (p' : Pool A) × (run_quit acts (p, exiting) ≡ (p', returned))
        × (p'.shared.tasks ≡ p.shared.tasks)
        × (p'.workers ≡ replicate n exited)
  unfolding run_quit act quit_step step leaving_pool
  wait_for_job_finish_loses p n e r small =
      let q0 = leaving_pool p p.shared.running p.workers in
      let q1 = leaving_pool p 0 (replicate n exited) in
      let enters : (q0, polling) ≡ (leaving_pool p n (replicate n (testing none)), polling) =
        rw (e, r) refl in
      let idle : (leaving_pool p (sub_times n n) (replicate n exited), polling) ≡ (q1, polling) =
        ap (λ m. (leaving_pool p m (replicate n exited), polling)) (sub_times_all n small) in
      let (q2, notified, same, kept) = notifies_all q1 (length (replicate n exited)) in
      let second = replicate (suc (length (replicate n exited))) quits in
      let third = replicate (suc n) quits in
      (
        (quits ∷ leave_acts 0 n) ++ (quits ∷ second ++ third),
        q2,
        run_quit-append (quits ∷ leave_acts 0 n) (quits ∷ second ++ third) (p, exiting)
            ∙ ap (run_quit (quits ∷ second ++ third))
                (ap (run_quit (leave_acts 0 n)) enters ∙ all_leave p n 0 n polling ∙ idle)
            ∙ run_quit-append second third (q1, notifying (length (replicate n exited)))
            ∙ ap (run_quit third) notified
            ∙ joins_all q2 0 n same,
        kept,
        same,
      )
