-- ===== src/ThreadPool/Joined.antt =====
-- The threads of RPC_util/ThreadPool.hpp that have returned from `do_work`.
use cpp_rpc.Prelude.{
  ℕ, zero, suc, ◌≤◌, ◌<◌, ◌≡◌, ◌≢◌, refl, sym, ap, ◌∙◌, inl, inr, Bool, true, false, Option, none,
  some, Option-cases, List, [], ◌∷◌, arith, if◌then◌else◌, get_elem?, set, length,
}
use mathlib.Core.Option.{some-injective}
use cpp_rpc.ThreadPool.{
  Pc, exited, Shared, Pool, Event, works, pushes, admits, notifies, clears, sets_exit,
  quit_notifies, work, worker_step, push_task, append_notify, admit, step,
}

module _ {A : Type 0} where
  -- the first `n` threads have returned
  unfoldable pub Joined : ℕ → List (Pc A) → Type 0
  Joined n ws = (i : ℕ) → i < n → get_elem? ws i ≡ some exited

  get_elem?-set_other :
      (ws : List (Pc A)) (i j : ℕ) (pc : Pc A) → i ≢ j → get_elem? (set ws j pc) i ≡ get_elem? ws i
  get_elem?-set_other [] i j pc ne = refl
  get_elem?-set_other (w ∷ ws) zero zero pc ne = absurd (ne refl)
  get_elem?-set_other (w ∷ ws) zero (suc j) pc ne = refl
  get_elem?-set_other (w ∷ ws) (suc i) zero pc ne = refl
  get_elem?-set_other (w ∷ ws) (suc i) (suc j) pc ne =
      get_elem?-set_other ws i j pc (λ e. ne (ap suc e))

  length-set : (ws : List (Pc A)) (i : ℕ) (pc : Pc A) → length (set ws i pc) ≡ length ws
  length-set [] i pc = refl
  length-set (w ∷ ws) zero pc = refl
  length-set (w ∷ ws) (suc i) pc = ap suc (length-set ws i pc)

  pub get_elem?-none : (ws : List (Pc A)) (i : ℕ) → get_elem? ws i ≡ none → length ws ≤ i
  get_elem?-none [] i e = omega arith
  get_elem?-none (w ∷ ws) zero e = absurd cc
  get_elem?-none (w ∷ ws) (suc i) e = omega (arith, get_elem?-none ws i e)

  works_on : (s : Shared A) (pc : Pc A) (r : Shared A × Pc A) → work s pc ≡ some r → pc ≢ exited
  unfolding work
  works_on s pc r q e = absurd (cc (ap (work s) e))

  -- a thread that has returned makes no step
  worker_step-Joined :
      (n : ℕ) (p : Pool A) (j : ℕ) → Joined n p.workers → Joined n (worker_step p j).workers
  unfolding worker_step Joined
  worker_step-Joined n p j joined i below = elim (Option-cases (get_elem? p.workers j)) [
    | inl e ↦ rw (e, worker_step) (joined i below)
    | inr (pc, e) ↦ elim (Option-cases (work p.shared pc)) [
      | inl q ↦ rw (e, worker_step) (rw q (joined i below))
      | inr (r, q) ↦
          let moved : i ≢ j = λ same.
            works_on p.shared pc r q
              (some-injective _ _ (sym e ∙ ap (get_elem? p.workers) (sym same) ∙ joined i below)) in
          rw (e, worker_step) (rw q (get_elem?-set_other p.workers i j r.1 moved ∙ joined i below))
    ]
  ]

  push_task-Joined :
      (n : ℕ) (p : Pool A) (k : ℕ) (t : Option A)
      → Joined n p.workers
      → Joined n (push_task p k t).workers
  unfolding push_task
  push_task-Joined n p zero t j = j
  push_task-Joined n p (suc k) t j = j

  append_notify-Joined :
      (n : ℕ) (p : Pool A) (k : ℕ) → Joined n p.workers → Joined n (append_notify p k).workers
  unfolding append_notify
  append_notify-Joined n p zero j = j
  append_notify-Joined n p (suc k) j = j

  admit-Joined :
      (n : ℕ) (p : Pool A) (b : Bool)
      → Joined n p.workers
      → Joined n (if b then p else record p { admitted = suc p.admitted }).workers
  admit-Joined n p true j = j
  admit-Joined n p false j = j

  pub step-Joined :
      (n : ℕ) (p : Pool A) (e : Event A) → Joined n p.workers → Joined n (step p e).workers
  unfolding step admit
  step-Joined n p (works i) j = worker_step-Joined n p i j
  step-Joined n p (pushes t) j = push_task-Joined n p p.admitted t j
  step-Joined n p admits j = admit-Joined n p p.shared.exit j
  step-Joined n p notifies j = append_notify-Joined n p p.pushed j
  step-Joined n p clears j = j
  step-Joined n p sets_exit j = j
  step-Joined n p quit_notifies j = j

  push_task-length :
      (p : Pool A) (k : ℕ) (t : Option A) → length (push_task p k t).workers ≡ length p.workers
  unfolding push_task
  push_task-length p zero t = refl
  push_task-length p (suc k) t = refl

  append_notify-length :
      (p : Pool A) (k : ℕ) → length (append_notify p k).workers ≡ length p.workers
  unfolding append_notify
  append_notify-length p zero = refl
  append_notify-length p (suc k) = refl

  admit-length :
      (p : Pool A) (b : Bool)
      → length (if b then p else record p { admitted = suc p.admitted }).workers ≡ length p.workers
  admit-length p true = refl
  admit-length p false = refl

  worker_step-length : (p : Pool A) (j : ℕ) → length (worker_step p j).workers ≡ length p.workers
  unfolding worker_step
  worker_step-length p j = elim (Option-cases (get_elem? p.workers j)) [
    | inl e ↦ rw (e, worker_step) refl
    | inr (pc, e) ↦ elim (Option-cases (work p.shared pc)) [
      | inl q ↦ rw (e, worker_step) (rw q refl)
      | inr (r, q) ↦ rw (e, worker_step) (rw q (length-set p.workers j r.1))
    ]
  ]

  pub step-length : (p : Pool A) (e : Event A) → length (step p e).workers ≡ length p.workers
  unfolding step admit
  step-length p (works i) = worker_step-length p i
  step-length p (pushes t) = push_task-length p p.admitted t
  step-length p admits = admit-length p p.shared.exit
  step-length p notifies = append_notify-length p p.pushed
  step-length p clears = refl
  step-length p sets_exit = refl
  step-length p quit_notifies = refl
