-- ===== src/ResponseHandle/Tests.antt =====
-- A response that comes before the timeout, and one that comes after it.
use cpp_rpc.Prelude.{none, arith, ℕ, ◌≡◌, refl, some, List, [], ◌∷◌, replicate}
use cpp_rpc.ThreadPool.{Ready, unset}
use cpp_rpc.ResponseHandle.{ResponseHandle, new_response_handle, read}
use cpp_rpc.ResponseHandle.Outcome.{
  Step, responds, times_out, apply_all, outcome, last_fitting, answer, outcome_lem,
  outcome-overflow,
}

abbrev block : List ℕ
block = replicate 2048 0

abbrev race : List Step
race = responds (1 ∷ 2 ∷ []) ∷ times_out ∷ []

-- `buf[BLOCK]` of the client's macros
abbrev stack : List ℕ
stack = replicate 1024 0

outcome_lem_example :
    (h : ResponseHandle) × (r : Ready) × (apply_all race (new_response_handle block 7, unset)
      ≡ some (h, r))
    × (h.state ≡ (outcome race).0)
    × (read stack 2048 h ≡ some (answer stack (outcome race).1))
unfolding outcome last_fitting
outcome_lem_example = outcome_lem race block 7 unset stack refl (omega arith)

abbrev long : List Step
long = responds (replicate 1100 1) ∷ []

outcome-overflow_example :
    (h : ResponseHandle) × (r : Ready) × (apply_all long (new_response_handle block 7, unset)
      ≡ some (h, r))
    × (read stack 2048 h ≡ none)
unfolding outcome last_fitting
outcome-overflow_example =
    outcome-overflow long block 7 unset stack refl refl (omega arith) (omega arith)
