-- ===== src/Timers/Valid.antt =====
-- The well-formed managers, and a manager by its two parts.
use cpp_rpc.Prelude.{
  ℕ, ◌+◌, ◌≤◌, ◌≡◌, sym, ap, ap₂, ◌∙◌, List, ◌++◌, length, take, drop, length-append,
  take-append-drop, take-append, drop-append, arith, length-take,
}
use cpp_rpc.Heap.{IsHeap}
use cpp_rpc.Timers.{TimerEntry, Manager, deadline}
use cpp_rpc.Timers.Entries.{count, count-append}

-- the entries of the timers that run, and of the others
abbrev pub running : Manager → List TimerEntry
running m = take m.actived_timers m.timers

abbrev pub waiting : Manager → List TimerEntry
waiting m = drop m.actived_timers m.timers

-- The count is inside the vector, the timers that run are a heap, and no timer has two entries.
pub record IsValid (m : Manager) : Type 0 where
  pub bounded : m.actived_timers ≤ length m.timers
  pub heap : IsHeap deadline (running m)
  pub distinct : (t : ℕ) → count t m.timers ≤ 1

-- A manager by its two parts.
abbrev pub manager_of : List TimerEntry → List TimerEntry → Manager
manager_of p r = record { timers = p ++ r; actived_timers = length p }

pub manager_of-eq :
    (m : Manager) → m.actived_timers ≤ length m.timers → m ≡ manager_of (running m) (waiting m)
manager_of-eq m h =
    ap₂ (λ n xs. record { timers = xs; actived_timers = n })
      (omega (arith, length-take m.actived_timers m.timers))
      (sym (take-append-drop m.actived_timers m.timers))

pub running-manager_of : (p r : List TimerEntry) → running (manager_of p r) ≡ p
running-manager_of p r = take-append p r

pub waiting-manager_of : (p r : List TimerEntry) → waiting (manager_of p r) ≡ r
waiting-manager_of p r = drop-append p r

-- A valid manager is made of a heap and other entries, in which no timer occurs twice.
pub manager_of-IsValid :
    (p r : List TimerEntry)
    → IsHeap deadline p
    → ((t : ℕ) → count t p + count t r ≤ 1)
    → IsValid (manager_of p r)
manager_of-IsValid p r ordered once_each = record {
  bounded = omega (arith, length-append p r);
  heap = rw (running-manager_of p r) ordered;
  distinct = λ t. omega (arith, count-append t p r, once_each t);
}

pub count-parts :
    (t : ℕ) (m : Manager) → count t (running m) + count t (waiting m) ≡ count t m.timers
count-parts t m =
    sym (count-append t (running m) (waiting m))
    ∙ ap (count t) (take-append-drop m.actived_timers m.timers)
