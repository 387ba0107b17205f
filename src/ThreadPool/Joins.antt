-- ===== src/ThreadPool/Joins.antt =====
-- `quit` and `wait_for_job_finish` of RPC_util/ThreadPool.hpp as a thread beside the workers and the clients.
use cpp_rpc.Prelude.{
  ℕ, zero, suc, ◌≡◌, ◌⊎◌, refl, sym, ap, ◌∙◌, inl, inr, true, Bool-cases, none, some, Option-cases,
  List, [], ◌∷◌, arith, get_elem?, length, ◌==◌, replicate,
}
use mathlib.Core.Path.{subst}
use mathlib.Core.Option.{some-injective}
use cpp_rpc.ThreadPool.{
  Pc, exited, Pool, Event, step, QuitPc, clearing, exiting, polling, returned, notifying, joining,
  is_exited, quit_step,
}
use cpp_rpc.ThreadPool.Joined.{Joined, get_elem?-none, step-Joined, step-length}

-- a step of a worker or of a client, or of the thread that quits
pub data Act (A : Type 0) : Type 0 where
  others : Event A → Act A
  quits : Act A

module _ {A : Type 0} where
  unfoldable pub act : Act A → Pool A × QuitPc → Pool A × QuitPc
  act (others e) (p, pc) = (step p e, pc)
  act quits (p, pc) = elim (quit_step p pc) [ none ↦ (p, pc) | some q ↦ q ]

  unfoldable pub run_quit : List (Act A) → Pool A × QuitPc → Pool A × QuitPc
  run_quit [] q = q
  run_quit (a ∷ acts) q = run_quit acts (act a q)

  -- what the thread that quits knows
  pub Quits : QuitPc → List (Pc A) → Type 0
  Quits (joining i) ws = Joined i ws
  Quits returned ws = Joined (length ws) ws
  Quits pc ws = Unit {0}

  step-Quits :
      (pc : QuitPc) (p : Pool A) (e : Event A) → Quits pc p.workers → Quits pc (step p e).workers
  unfolding Quits Joined
  step-Quits (joining i) p e q = step-Joined i p e q
  step-Quits returned p e q = rw (step-length p e) (step-Joined (length p.workers) p e q)
  step-Quits clearing p e q = tt
  step-Quits exiting p e q = tt
  step-Quits polling p e q = tt
  step-Quits (notifying k) p e q = tt

  exited_lem : (pc : Pc A) → is_exited pc ≡ true → pc ≡ exited
  unfolding is_exited
  exited_lem exited x = refl
  exited_lem pc x = absurd (ground (arith, x))

  joins_next :
      (p : Pool A) (i : ℕ) (pc : Pc A)
      → get_elem? p.workers i ≡ some pc
      → is_exited pc ≡ true
      → Joined i p.workers
      → Joined (suc i) p.workers
  unfolding Joined
  joins_next p i pc e x q j below = elim (Bool-cases (j == i)) [
    | inl same ↦ let eq : j ≡ i = ground arith in rw eq (e ∙ ap some (exited_lem pc x))
    | inr other ↦ q j (ground arith)
  ]

  quit_step-Quits :
      (pc : QuitPc) (p : Pool A)
      → Quits pc p.workers
      → Quits (act quits (p, pc)).1 (act quits (p, pc)).0.workers
  unfolding act quit_step Quits Joined step
  quit_step-Quits clearing p q = tt
  quit_step-Quits exiting p q = tt
  quit_step-Quits polling p q = elim (Bool-cases (p.shared.running == 0)) [
    | inl e ↦ rw e tt
    | inr e ↦ rw e tt
  ]
  quit_step-Quits (notifying zero) p q = λ i below. absurd (omega arith)
  quit_step-Quits (notifying (suc k)) p q = tt
  quit_step-Quits (joining i) p q = elim (Option-cases (get_elem? p.workers i)) [
    | inl e ↦ rw (act, quit_step, e) (λ j below. q j (omega (arith, get_elem?-none p.workers i e)))
    | inr (pc, e) ↦ elim (Bool-cases (is_exited pc)) [
      | inl x ↦ rw (act, quit_step, e) (rw x (joins_next p i pc e x q))
      | inr x ↦ rw (act, quit_step, e) (rw x q)
    ]
  ]
  quit_step-Quits returned p q = q

  run_quit-Quits :
      (acts : List (Act A)) (p : Pool A) (pc : QuitPc)
      → Quits pc p.workers
      → Quits (run_quit acts (p, pc)).1 (run_quit acts (p, pc)).0.workers
  unfolding run_quit act
  run_quit-Quits [] p pc q = q
  run_quit-Quits (others e ∷ acts) p pc q = run_quit-Quits acts (step p e) pc (step-Quits pc p e q)
  run_quit-Quits (quits ∷ acts) p pc q =
      run_quit-Quits acts (act quits (p, pc)).0 (act quits (p, pc)).1 (quit_step-Quits pc p q)

  quit_step-length :
      (pc : QuitPc) (p : Pool A) → length (act quits (p, pc)).0.workers ≡ length p.workers
  unfolding act quit_step step
  quit_step-length clearing p = refl
  quit_step-length exiting p = refl
  quit_step-length polling p = refl
  quit_step-length (notifying zero) p = refl
  quit_step-length (notifying (suc k)) p = refl
  quit_step-length (joining i) p = elim (Option-cases (get_elem? p.workers i)) [
    | inl e ↦ rw (act, quit_step, e) refl
    | inr (pc, e) ↦ elim (Bool-cases (is_exited pc)) [
      | inl x ↦ rw (act, quit_step, e) (rw x refl)
      | inr x ↦ rw (act, quit_step, e) (rw x refl)
    ]
  ]
  quit_step-length returned p = refl

  run_quit-length :
      (acts : List (Act A)) (p : Pool A) (pc : QuitPc)
      → length (run_quit acts (p, pc)).0.workers ≡ length p.workers
  unfolding run_quit act
  run_quit-length [] p pc = refl
  run_quit-length (others e ∷ acts) p pc = run_quit-length acts (step p e) pc ∙ step-length p e
  run_quit-length (quits ∷ acts) p pc =
      run_quit-length acts (act quits (p, pc)).0 (act quits (p, pc)).1 ∙ quit_step-length pc p

  Joined-eq-replicate :
      (ws : List (Pc A)) → Joined (length ws) ws → ws ≡ replicate (length ws) exited
  unfolding Joined
  Joined-eq-replicate [] j = refl
  Joined-eq-replicate (w ∷ ws) j =
      let first : w ≡ exited = some-injective w exited (j 0 (omega arith)) in
      let rest = Joined-eq-replicate ws (λ i below. j (suc i) (omega arith)) in
      ap (λ v. v ∷ ws) first ∙ ap (◌∷◌ exited) rest

  -- When `quit` or `wait_for_job_finish` has returned, every worker has returned from `do_work`, however the
  -- threads were interleaved and whatever clients did meanwhile.
  pub quit_joins :
      (acts : List (Act A)) (p p' : Pool A) (pc : QuitPc)
      → (pc ≡ clearing) ⊎ (pc ≡ exiting)
      → run_quit acts (p, pc) ≡ (p', returned)
      → p'.workers ≡ replicate (length p.workers) exited
  unfolding Quits
  quit_joins acts p p' pc start ends =
      let from : Quits pc p.workers = elim start [ inl c ↦ rw c tt | inr c ↦ rw c tt ] in
      let all : Joined (length p'.workers) p'.workers =
        subst (λ (q : Pool A × QuitPc). Quits q.1 q.0.workers) ends
          (run_quit-Quits acts p pc from) in
      let size : length p'.workers ≡ length p.workers =
        ap (λ (q : Pool A × QuitPc). length q.0.workers) (sym ends) ∙ run_quit-length acts p pc in
      Joined-eq-replicate p'.workers all ∙ ap (λ n. replicate n exited) size
