-- ===== src/ThreadPool/Knows.antt =====
-- What the workers of RPC_util/ThreadPool.hpp know at each step of `do_work`, and who is on the way to the queue.
use cpp_rpc.Prelude.{
  ℕ, zero, suc, ◌+◌, ◌≤◌, ◌<◌, ◌≡◌, refl, ◌⊎◌, inr, Bool, true, Option, none, some, List, [], ◌∷◌,
  ◌++◌, arith, if◌then◌else◌, get_elem?, set, length, ◌==◌,
}
use mathlib.Core.Path.{subst}
use mathlib.Core.Option.{some-injective}
use cpp_rpc.ThreadPool.{
  Ready, unset, tag, Pc, parking, waiting, leaving, exited, testing, testing_exit, starting,
  calling, Pool, is_task,
}
use cpp_rpc.ThreadPool.Count.{total}

-- 1 if a notification lies there for a worker
unfoldable pub signal : Ready → ℕ
signal unset = 0
signal (tag t) = if t == 1 then 1 else 0

pub signal-le : (r : Ready) → signal r + 0 ≤ 1
unfolding signal
signal-le r = ground arith

module _ {A : Type 0} where
  unfoldable pub one_if : Option A → ℕ
  one_if none = 0
  one_if (some t) = 1

  -- 1 for a worker that comes back to the queue before it waits
  unfoldable pub active : Pc A → ℕ
  unfolding one_if
  active parking = 0
  active waiting = 0
  active leaving = 0
  active exited = 0
  active (testing t) = one_if t
  active (testing_exit t) = one_if t
  active pc = 1

  abbrev pub AllTasks : List (Option A) → Type 0
  AllTasks [] = Unit {0}
  AllTasks (t ∷ ts) = (is_task t ≡ true) × AllTasks ts

  -- what a worker at `pc` knows
  abbrev pub Knows : Bool → Pc A → Type 0
  Knows e (testing_exit t) = (is_task t ≡ true) ⊎ (e ≡ true)
  Knows e (starting t) = is_task t ≡ true
  Knows e (calling t) = is_task t ≡ true
  Knows e leaving = e ≡ true
  Knows e pc = Unit {0}

  abbrev pub AllKnow : Bool → List (Pc A) → Type 0
  AllKnow e [] = Unit {0}
  AllKnow e (pc ∷ pcs) = Knows e pc × AllKnow e pcs

  abbrev pub fetchers : Pool A → ℕ
  fetchers p = p.pushed + signal p.shared.ready + total active p.workers

  pub record NoneLost (p : Pool A) : Type 0 where
    pub tasks : AllTasks p.shared.tasks
    pub knows : AllKnow p.shared.exit p.workers
    pub fetched : (p.shared.exit ≡ true) ⊎ ((length p.shared.tasks ≡ 0) ⊎ (0 < fetchers p))

  pub AllKnow-get :
      (e : Bool) (pcs : List (Pc A)) (i : ℕ) (pc : Pc A)
      → get_elem? pcs i ≡ some pc
      → AllKnow e pcs
      → Knows e pc
  AllKnow-get e [] i pc g k = cc
  AllKnow-get e (q ∷ pcs) zero pc g k = subst (Knows e) (some-injective q pc g) k.0
  AllKnow-get e (q ∷ pcs) (suc i) pc g k = AllKnow-get e pcs i pc g k.1

  pub AllKnow-set :
      (e : Bool) (pcs : List (Pc A)) (i : ℕ) (pc : Pc A)
      → Knows e pc
      → AllKnow e pcs
      → AllKnow e (set pcs i pc)
  AllKnow-set e [] i pc h k = tt
  AllKnow-set e (q ∷ pcs) zero pc h k = (h, k.1)
  AllKnow-set e (q ∷ pcs) (suc i) pc h k = (k.0, AllKnow-set e pcs i pc h k.1)

  pub Knows-exit : (pc : Pc A) (e : Bool) → Knows e pc → Knows true pc
  Knows-exit (testing_exit t) e k = inr refl
  Knows-exit (starting t) e k = k
  Knows-exit (calling t) e k = k
  Knows-exit leaving e k = refl
  Knows-exit _ e k = tt

  pub AllKnow-exit : (pcs : List (Pc A)) (e : Bool) → AllKnow e pcs → AllKnow true pcs
  AllKnow-exit [] e k = tt
  AllKnow-exit (q ∷ pcs) e k = (Knows-exit q e k.0, AllKnow-exit pcs e k.1)

  pub AllTasks-append : (ts : List (Option A)) (t : A) → AllTasks ts → AllTasks (ts ++ some t ∷ [])
  unfolding is_task
  AllTasks-append [] t k = (refl, tt)
  AllTasks-append (q ∷ ts) t k = (k.0, AllTasks-append ts t k.1)
