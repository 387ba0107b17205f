-- ===== src/ThreadPool/Queue.antt =====
-- `TaskQueue` of RPC_util/ThreadPool.hpp is a FIFO.
use cpp_rpc.Prelude.{
  ◌≡◌, refl, sym, ap, ◌∙◌, Option, none, some, List, [], ◌∷◌, ◌++◌, append_assoc, append-nil,
}
use mathlib.Core.Path.{subst}
use cpp_rpc.ThreadPool.{append_task, take_task}

-- the calls that the threads make, in the order in which they get the mutex
pub data QueueCall (A : Type 0) : Type 0 where
  append : A → QueueCall A
  take : QueueCall A

module _ {A : Type 0} where
  -- the queue after the calls, and the tasks that `take_task` handed out, in order
  pub serve : List (Option A) → List (QueueCall A) → List (Option A) × List A
  serve q [] = (q, [])
  serve q (append t ∷ cs) = serve (append_task q (some t)) cs
  serve q (take ∷ cs) =
      let (t, q') = take_task q in
      let (q'', ts) = serve q' cs in (q'', elim t [ none ↦ ts | some a ↦ a ∷ ts ])

  pub appended : List (QueueCall A) → List (Option A)
  appended [] = []
  appended (append t ∷ cs) = some t ∷ appended cs
  appended (take ∷ cs) = appended cs

  pub wrap : List A → List (Option A)
  wrap [] = []
  wrap (a ∷ q) = some a ∷ wrap q

  wrap-append : (q : List A) (t : A) → wrap (q ++ t ∷ []) ≡ wrap q ++ some t ∷ []
  unfolding wrap
  wrap-append [] t = refl
  wrap-append (a ∷ q) t = ap (◌∷◌ (some a)) (wrap-append q t)

  serve_from :
      (q : List A) (cs : List (QueueCall A))
      → wrap (serve (wrap q) cs).1 ++ (serve (wrap q) cs).0 ≡ wrap q ++ appended cs
  unfolding serve appended wrap append_task take_task
  serve_from q [] = sym (append-nil (wrap q))
  serve_from q (append t ∷ cs) =
      subst (λ x. wrap (serve x cs).1 ++ (serve x cs).0 ≡ wrap q ++ (some t ∷ appended cs))
        (wrap-append q t)
        (serve_from (q ++ t ∷ []) cs
          ∙ ap (λ x. x ++ appended cs) (wrap-append q t)
          ∙ append_assoc (wrap q) (some t ∷ []) (appended cs))
  serve_from [] (take ∷ cs) = serve_from [] cs
  serve_from (a ∷ q) (take ∷ cs) = ap (◌∷◌ (some a)) (serve_from q cs)

  -- Whatever the order in which producers and workers get the mutex, the tasks handed out, followed
  -- by those still queued, are the tasks appended, in order: none is lost, doubled or overtaken.
  pub serve_fifo : (cs : List (QueueCall A)) → wrap (serve [] cs).1 ++ (serve [] cs).0 ≡ appended cs
  unfolding wrap
  serve_fifo cs = serve_from [] cs
