-- ===== src/Timers.antt =====
-- RPC_util/TimerManager.cc and .h: timers kept in a heap, and the thread that lets them time out.
-- This file is the manager. A Timer* is an address, a number, and `Rep` a count of milliseconds. Each
-- operation holds the manager's mutex from beginning to end, and so is one step.
pub mod Objects
pub mod Clock
pub mod Entries
pub mod Valid
pub mod Enable
pub mod Due
pub mod Disable
pub mod Register
pub mod Fires
pub mod Run
mod Tests
use cpp_rpc.Prelude.{
  ℕ, zero, suc, ◌+◌, ◌-◌, ◌<◌, ◌≤◌, Bool, Option, none, some, List, [], ◌∷◌, ◌++◌, length,
  get_elem?, set, take, drop, ltb, leb, ◌&&◌, ◌==◌, ◌>>=◌, if◌then◌else◌,
}
use cpp_rpc.Heap.{HeapOps}
use cpp_rpc.Heap.Swap.{swap}

pub record TimerEntry : Type 0 where
  pub timer : ℕ
  pub expired : ℕ

-- `m_timers` and `m_actived_timers`: the entries before the count are a heap, and the timers that run.
pub record Manager : Type 0 where
  pub timers : List TimerEntry
  pub actived_timers : ℕ

-- what TimerComp compares, with `>`
abbrev pub deadline : TimerEntry → ℕ
deadline e = e.expired

-- an algorithm on the range [lo, hi) of the vector
unfoldable pub on_range :
    (List TimerEntry → List TimerEntry) → ℕ → ℕ → List TimerEntry → List TimerEntry
on_range f lo hi xs = take lo xs ++ f (drop lo (take hi xs)) ++ drop hi xs

-- the loop `m_timers[i].m_timer == timer` over the entries of a list
unfoldable pub find_timer : ℕ → List TimerEntry → Option ℕ
find_timer t [] = none
find_timer t (e ∷ es) =
    let rest = find_timer t es in if e.timer == t then some 0 else (rest >>= λ i. some (suc i))

unfoldable pub add_timer : Manager → ℕ → Manager
add_timer m t = elim (find_timer t m.timers) [
  | some i ↦ m
  | none ↦ record m { timers = m.timers ++ record { timer = t; expired = 0 } ∷ [] }
]

-- `erase` of the first entry of the timer
unfoldable pub erase_timer : ℕ → List TimerEntry → List TimerEntry
erase_timer t [] = []
erase_timer t (e ∷ es) = let rest = erase_timer t es in if e.timer == t then es else e ∷ rest

module _ (heap : HeapOps deadline) where
  -- The search starts behind the timers that run.
  unfoldable pub enable_timer : Manager → ℕ → ℕ → Manager
  enable_timer m t expired = elim (find_timer t (drop m.actived_timers m.timers)) [
    | none ↦ m
    | some j ↦
        let pos = m.actived_timers + j in
        let entered = set m.timers pos (record { timer = t; expired = expired }) in
        let n = suc m.actived_timers in
        record {
          timers = on_range heap.push_heap 0 n (swap entered m.actived_timers pos);
          actived_timers = n;
        }
  ]

  unfoldable pub disable_timer : Manager → ℕ → Manager
  disable_timer m t = elim (find_timer t (take m.actived_timers m.timers)) [
    | none ↦ m
    | some pos ↦ record {
      timers = on_range heap.pop_heap pos m.actived_timers m.timers;
      actived_timers = m.actived_timers - 1;
    }
  ]

  unfoldable pub remove_timer : Manager → ℕ → Manager
  remove_timer m t = let m' = disable_timer m t in record m' { timers = erase_timer t m'.timers }

  -- One round of the inner loop of `run`: the timer in front, if it is due.
  unfoldable pub take_due : ℕ → Manager → Option (ℕ × Manager)
  take_due now m =
      if ltb 0 m.actived_timers && ltb 0 (length m.timers)
      then (get_elem? m.timers 0 >>= λ e.
          if leb e.expired now
          then some (
            e.timer,
            record {
              timers = on_range heap.pop_heap 0 m.actived_timers m.timers;
              actived_timers = m.actived_timers - 1;
            },
          )
          else none)
      else none

  -- The inner loop; each round takes one of the timers that run. The source takes the mutex anew for each
  -- of them; here the loop is one step, without the calls of other threads in between.
  unfoldable pub collect_due : ℕ → ℕ → Manager → List ℕ × Manager
  collect_due zero now m = ([], m)
  collect_due (suc k) now m = elim (take_due now m) [
    | none ↦ ([], m)
    | some (t, m') ↦ let (ts, m'') = collect_due k now m' in (t ∷ ts, m'')
  ]
