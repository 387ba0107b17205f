-- ===== src/ThreadPool/Quit.antt =====
-- `ThreadPool::quit` of RPC_util/ThreadPool.hpp: the notifications of its loop go to one flag, and
-- only one worker takes it.
use cpp_rpc.Prelude.{
  ℕ, zero, suc, ◌≡◌, ◌≤◌, refl, ap, ◌∙◌, ◌⊎◌, inl, inr, true, Option, none, some, List, [], ◌∷◌,
  ◌++◌, map, get_elem?, replicate, length, length-replicate, ◌==◌, arith, append_assoc,
  if◌then◌else◌,
}
use cpp_rpc.Int32.{add_int, sub_int}
use cpp_rpc.ThreadPool.{
  Ready, unset, tag, notify, clear, Pc, waiting, exited, Pool, Event, works, work, wait, take_task,
  is_task, worker_step, notify_all, step, run, QuitPc, clearing, polling, notifying, joining,
  is_exited, quit_step,
}
use cpp_rpc.ThreadPool.Joins.{Act, others, quits, act, run_quit}

module _ {A : Type 0} where
  -- `quit` from its first line to its first `join`, with `n` workers
  abbrev pub quit_acts : ℕ → List (Act A)
  quit_acts n = quits ∷ quits ∷ quits ∷ (replicate n quits ++ quits ∷ [])

  -- the six steps of the worker that wins the flag: from its `wait` to its return
  abbrev pub winner_acts : List (Act A)
  winner_acts = map others (replicate 6 (works 0))

  -- a step of the thread that quits, or of a worker
  abbrev pub turn : Option ℕ → Act A
  turn none = quits
  turn (some i) = others (works i)

  -- the pool once `quit` has begun, at `m_running` = `r`
  quitting : Pool A → ℕ → Ready → List (Pc A) → Pool A
  quitting p r q ws = record p {
    shared = record { tasks = []; ready = q; exit = true; running = r };
    workers = ws;
  }

  others_first :
      (es : List (Event A)) (more : List (Act A)) (p : Pool A) (pc : QuitPc)
      → run_quit (map others es ++ more) (p, pc) ≡ run_quit more (run p es, pc)
  unfolding run_quit act run
  others_first [] more p pc = refl
  others_first (e ∷ es) more p pc = others_first es more (step p e) pc

  notifies_all :
      (k : ℕ) (more : List (Act A)) (p : Pool A) (r : ℕ) (q : Ready) (ws : List (Pc A))
      → run_quit (replicate (suc k) quits ++ more) (quitting p r q ws, notifying (suc k))
        ≡ run_quit more (quitting p r (tag 1) ws, notifying 0)
  unfolding run_quit act quit_step step notify_all notify quitting
  notifies_all zero more p r q ws = refl
  notifies_all (suc k) more p r q ws = notifies_all k more p r (tag 1) ws

  get_elem?-replicate :
      (n i : ℕ) (pc : Pc A)
      → (get_elem? (replicate n pc) i ≡ none) ⊎ (get_elem? (replicate n pc) i ≡ some pc)
  get_elem?-replicate zero i pc = inl refl
  get_elem?-replicate (suc n) zero pc = inr refl
  get_elem?-replicate (suc n) (suc i) pc = get_elem?-replicate n i pc

  blocked :
      (p : Pool A) (r n i : ℕ)
      → let q = quitting p r unset (exited ∷ replicate n waiting) in worker_step q i ≡ q
  unfolding worker_step work wait quitting
  blocked p r n zero = refl
  blocked p r n (suc i) = elim (get_elem?-replicate n i waiting) [
    | inl e ↦ rw (e, worker_step)
    | inr e ↦ rw (e, worker_step)
  ]

  wins :
      (p : Pool A) (r n : ℕ)
      → run (quitting p r (tag 1) (waiting ∷ replicate n waiting)) (replicate 6 (works 0))
        ≡ quitting p (sub_int (add_int r 1) 1) unset (exited ∷ replicate n waiting)
  unfolding run step worker_step work wait take_task is_task quitting
  wins p r n = refl

  -- From then on nothing moves but the first `join`.
  stays :
      (p : Pool A) (r n : ℕ) (turns : List (Option ℕ)) (j : ℕ)
      → j ≤ 1
      → let q = quitting p r unset (exited ∷ replicate (suc n) waiting) in
        (i : ℕ) × (run_quit (map turn turns) (q, joining j) ≡ (q, joining i)) × (i ≤ 1)
  unfolding run_quit act step quit_step is_exited quitting
  stays p r n [] j k = (j, refl, k)
  stays p r n (some i ∷ turns) j k =
      let (i', e, k') = stays p r n turns j k in
      (i', ap (λ q. run_quit (map turn turns) (q, joining j)) (blocked p r (suc n) i) ∙ e, k')
  stays p r n (none ∷ turns) zero k = stays p r n turns 1 (omega arith)
  stays p r n (none ∷ turns) (suc zero) k = stays p r n turns 1 (omega arith)
  stays p r n (none ∷ turns) (suc (suc j)) k = absurd (omega arith)

  enters :
      (p : Pool A) (more : List (Act A))
      → run_quit (quits ∷ quits ∷ quits ∷ more) (p, clearing)
        ≡ run_quit more (
          quitting p p.shared.running p.shared.ready p.workers,
          if p.shared.running == 0 then notifying (length p.workers) else polling,
        )
  unfolding run_quit act quit_step step clear quitting
  enters p more = refl

  joins_first :
      (p : Pool A) (ws : List (Pc A)) (r : ℕ) (q : Ready) (more : List (Act A))
      → run_quit (quits ∷ more) (quitting p r q ws, notifying 0)
        ≡ run_quit more (quitting p r q ws, joining 0)
  unfolding run_quit act quit_step
  joins_first p ws r q more = refl

  begins :
      (p : Pool A) (n : ℕ) (more : List (Act A))
      → p.workers ≡ replicate (suc (suc n)) waiting
      → p.shared.running ≡ 0
      → run_quit (quit_acts (suc (suc n)) ++ more) (p, clearing)
        ≡ run_quit more (quitting p 0 (tag 1) (replicate (suc (suc n)) waiting), joining 0)
  begins p n more e z =
      let m = suc (suc n) in
      let ws = replicate m waiting in
      let rest = (replicate m quits ++ quits ∷ []) ++ more in
      let size : length p.workers ≡ m = ap length e ∙ length-replicate {A = Pc A} m waiting in
      let bracket = append_assoc (replicate m quits) (quits ∷ []) more in
      let first : run_quit (quits ∷ quits ∷ quits ∷ rest) (p, clearing)
          ≡ run_quit rest (quitting p 0 p.shared.ready ws, notifying m) =
        enters p rest ∙ rw (e, z, length-replicate {A = Pc A} m waiting) refl in
      first
      ∙ ap (λ acts. run_quit acts (quitting p 0 p.shared.ready ws, notifying m)) bracket
      ∙ notifies_all (suc n) (quits ∷ more) p 0 p.shared.ready ws
      ∙ joins_first p ws 0 (tag 1) more

  -- `quit` may never return: with two workers or more, all of them waiting and none running a function,
  -- where all its notifications are made before the first of them has woken, and that one then returns,
  -- `quit` stays at its first or second `join`, and the other workers stay blocked, whatever the workers
  -- and `quit` try from then on.
  pub quit_hangs :
      (p : Pool A) (n : ℕ) (turns : List (Option ℕ))
      → p.workers ≡ replicate (suc (suc n)) waiting
      → p.shared.running ≡ 0
      → (p' : Pool A) × (i : ℕ) × (run_quit
            (quit_acts (suc (suc n)) ++ (winner_acts ++ map turn turns))
            (p, clearing)
          ≡ (p', joining i))
        × (i ≤ 1)
        × (p'.workers ≡ exited ∷ replicate (suc n) waiting)
  unfolding quitting
  quit_hangs p n turns e z =
      let (i, end, k) = stays p (sub_int (add_int 0 1) 1) n turns 0 (omega arith) in
      (
        quitting p (sub_int (add_int 0 1) 1) unset (exited ∷ replicate (suc n) waiting),
        i,
        begins p n (winner_acts ++ map turn turns) e z
            ∙ others_first (replicate 6 (works 0)) (map turn turns)
                (quitting p 0 (tag 1) (replicate (suc (suc n)) waiting)) (joining 0)
            ∙ ap (λ q. run_quit (map turn turns) (q, joining 0)) (wins p 0 (suc n))
            ∙ end,
        k,
        refl,
      )
