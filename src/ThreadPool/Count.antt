-- ===== src/ThreadPool/Count.antt =====
-- `m_running` of RPC_util/ThreadPool.hpp against the workers' program counters.
use cpp_rpc.Prelude.{
  ℕ, zero, suc, ◌+◌, ◌*◌, ◌^◌, ◌≤◌, ◌<◌, ◌≡◌, refl, sym, ap, ◌∙◌, inl, inr, some, Option-cases,
  List, [], ◌∷◌, arith, get_elem?, set, length, replicate, length-replicate,
}
use cpp_rpc.ThreadPool.{
  Pc, entering, taking, waiting, woken, exited, finishing, calling, Shared, Pool, Event, works,
  work, wait, take_task, worker_step, push_task, append_notify, admit, notify_all, step, run,
  new_pool,
}

-- a weight of program counters summed over the workers
module _ {A : Type 0} (w : Pc A → ℕ) where
  pub total : List (Pc A) → ℕ
  total [] = 0
  total (pc ∷ pcs) = w pc + total pcs

  pub total-set :
      (pcs : List (Pc A)) (i : ℕ) (pc pc' : Pc A)
      → get_elem? pcs i ≡ some pc
      → total (set pcs i pc') + w pc ≡ total pcs + w pc'
  unfolding total
  total-set [] i pc pc' e = cc
  total-set (q ∷ pcs) zero pc pc' e = ground arith
  total-set (q ∷ pcs) (suc i) pc pc' e = omega (arith, total-set pcs i pc pc' e)

  pub total-replicate_zero : (n : ℕ) (pc : Pc A) → w pc ≡ 0 → total (replicate n pc) ≡ 0
  unfolding total
  total-replicate_zero zero pc e = refl
  total-replicate_zero (suc n) pc e = omega (arith, e, total-replicate_zero n pc e)

module _ {A : Type 0} where
  pub length-set_pc : (pcs : List (Pc A)) (i : ℕ) (pc : Pc A) → length (set pcs i pc) ≡ length pcs
  length-set_pc [] i pc = refl
  length-set_pc (q ∷ pcs) zero pc = refl
  length-set_pc (q ∷ pcs) (suc i) pc = ap suc (length-set_pc pcs i pc)

  -- 1 for a worker that is neither starting up, nor blocked or just woken, nor gone
  pub awake : Pc A → ℕ
  awake entering = 0
  awake waiting = 0
  awake woken = 0
  awake exited = 0
  awake pc = 1

  -- 1 for a worker in the call of a task
  pub busy : Pc A → ℕ
  busy (calling t) = 1
  busy finishing = 1
  busy pc = 0

  abbrev weight : Pc A → ℕ
  weight pc = awake pc + busy pc

  total_split : (pcs : List (Pc A)) → total weight pcs ≡ total awake pcs + total busy pcs
  unfolding total
  total_split [] = refl
  total_split (pc ∷ pcs) = omega (arith, total_split pcs)

  weight-le : (pc : Pc A) → weight pc ≤ 2
  unfolding awake busy
  weight-le pc = ground arith

  total-le : (pcs : List (Pc A)) → total weight pcs ≤ 2 * length pcs
  unfolding total
  total-le [] = omega arith
  total-le (pc ∷ pcs) = omega (arith, weight-le pc, total-le pcs)

  weight-le-total :
      (pcs : List (Pc A)) (i : ℕ) (pc : Pc A)
      → get_elem? pcs i ≡ some pc
      → weight pc ≤ total weight pcs
  unfolding total
  weight-le-total [] i pc e = cc
  weight-le-total (q ∷ pcs) zero pc e = ground arith
  weight-le-total (q ∷ pcs) (suc i) pc e = omega (arith, weight-le-total pcs i pc e)

  -- One step of a worker changes `m_running` as it changes the worker's weight.
  work_count :
      (s s' : Shared A) (pc pc' : Pc A)
      → work s pc ≡ some (s', pc')
      → weight pc ≤ s.running
      → s.running + 1 < 2 ^ 32
      → s'.running + weight pc ≡ s.running + weight pc'
  unfolding work awake busy take_task wait
  work_count s s' entering pc' e lo hi = ground arith
  work_count s s' waiting pc' e lo hi = ground arith
  work_count s s' taking pc' e lo hi = ground arith
  work_count s s' pc pc' e lo hi = ground arith

  pub record IsCounted (p : Pool A) : Type 0 where
    few : 2 * length p.workers < 2 ^ 31
    counted : p.shared.running ≡ total weight p.workers

  moved-IsCounted :
      {p : Pool A} (i : ℕ) (pc : Pc A) (s : Shared A) (pc' : Pc A)
      → get_elem? p.workers i ≡ some pc
      → work p.shared pc ≡ some (s, pc')
      → IsCounted p
      → IsCounted (record p { shared = s; workers = set p.workers i pc' })
  moved-IsCounted {p} i pc s pc' e f v =
      let ws = p.workers in
      let here = weight-le-total ws i pc e in
      let most = total-le ws in
      let c =
        work_count p.shared s pc pc' f (omega (arith, v.counted))
          (omega (arith, v.counted, v.few)) in
      record {
        few = omega (arith, length-set_pc ws i pc', v.few);
        counted = omega (arith, c, total-set weight ws i pc pc' e, v.counted);
      }

  worker_step-IsCounted : (p : Pool A) (i : ℕ) → IsCounted p → IsCounted (worker_step p i)
  unfolding worker_step
  worker_step-IsCounted p i v = elim (Option-cases (get_elem? p.workers i)) [
    | inl e ↦ rw (e, worker_step) v
    | inr (pc, e) ↦ elim (Option-cases (work p.shared pc)) [
      | inl f ↦ rw (e, worker_step) (rw (f, worker_step) v)
      | inr ((s, pc'), f) ↦ rw (e, f, worker_step) (moved-IsCounted i pc s pc' e f v)
    ]
  ]

  -- Every event keeps `m_running` right.
  pub step-IsCounted : (p : Pool A) (e : Event A) → IsCounted p → IsCounted (step p e)
  unfolding step push_task append_notify notify_all admit
  step-IsCounted p (works i) v = worker_step-IsCounted p i v
  step-IsCounted p e v = ground arith

  run-IsCounted : (p : Pool A) (es : List (Event A)) → IsCounted p → IsCounted (run p es)
  unfolding run
  run-IsCounted p [] v = v
  run-IsCounted p (e ∷ es) v = run-IsCounted (step p e) es (step-IsCounted p e v)

  new_pool-IsCounted : (n : ℕ) → n < 2 ^ 30 → IsCounted (new_pool n)
  unfolding new_pool awake busy
  new_pool-IsCounted n h = record {
    few = omega (arith, length-replicate n entering);
    counted = sym (total-replicate_zero weight n entering refl);
  }

  -- At every moment of every schedule `m_running` is the number of workers that are awake, plus the
  -- number that are inside a task: a worker that runs a task counts twice.
  pub running_lem :
      (n : ℕ) (es : List (Event A))
      → n < 2 ^ 30
      → let p = run (new_pool n) es in
        p.shared.running ≡ total awake p.workers + total busy p.workers
  running_lem n es h =
      let p = run (new_pool n) es in
      (run-IsCounted (new_pool n) es (new_pool-IsCounted n h)).counted ∙ total_split p.workers
