-- ===== src/Timers/Objects.antt =====
-- RPC_util/TimerManager.cc: the Timers, and the thread of the manager that lets them time out.
-- The -1 that a Timer holds until it is started is `none`. What the steady clock reads is a field of
-- the world, which the environment and the callbacks move. `none` of an operation is the use of a Timer
-- that was deleted.
use cpp_rpc.Prelude.{
  ℕ, ◌+◌, ◌-◌, Bool, true, false, Option, none, some, List, [], ◌∷◌, leb, ◌>>=◌, if◌then◌else◌,
}
use cpp_rpc.Assoc.{nat_key, lookup, insert, erase}
use cpp_rpc.Heap.{HeapOps}
use cpp_rpc.Timers.{
  Manager, deadline, add_timer, enable_timer, disable_timer, remove_timer, collect_due,
}

-- `Timer::Type`
pub data Kind : Type 0 where
  once circle : Kind

pub record Timer (F : Type 0) : Type 0 where
  pub func : Option F
  pub interals : Option ℕ
  pub expired : Option ℕ
  pub type : Kind

-- the manager, the Timers that exist, `m_stop`, and the clock
pub record World (F : Type 0) : Type 0 where
  pub manager : Manager
  pub objects : List (ℕ × Timer F)
  pub stop_flag : Bool
  pub now : ℕ

-- `now + m_interals`, with -1 for `none`; the clock has left 0 behind
unfoldable pub after : ℕ → Option ℕ → ℕ
after now none = now - 1
after now (some i) = now + i

module _ {F : Type 0} where
  unfoldable pub new_manager : ℕ → World F
  new_manager now = record {
    manager = record { timers = []; actived_timers = 0 };
    objects = [];
    stop_flag = false;
    now = now;
  }

  unfoldable pub stop_manager : World F → World F
  stop_manager w = record w { stop_flag = true }

  unfoldable pub new_timer : ℕ → Kind → World F → World F
  new_timer t kind w =
      let made : Timer F = record { func = none; interals = none; expired = none; type = kind } in
      record w { manager = add_timer w.manager t; objects = insert t made w.objects }

  unfoldable pub is_time_out : ℕ → World F → Option Bool
  is_time_out t w =
      lookup t w.objects >>= λ o. some (elim o.expired [ none ↦ true | some e ↦ leb e w.now ])

  -- the old callback, which is returned, and the new one in its place
  unfoldable pub set_callback_func : ℕ → Option F → World F → Option (Option F × World F)
  set_callback_func t f w = lookup t w.objects >>= λ o.
      some (o.func, record w { objects = insert t (record o { func = f }) w.objects })

  unfoldable pub get_callback_func : ℕ → World F → Option (Option F)
  get_callback_func t w = lookup t w.objects >>= λ o. some o.func

  unfoldable pub get_type : ℕ → World F → Option Kind
  get_type t w = lookup t w.objects >>= λ o. some o.type

  unfoldable pub set_type : ℕ → Kind → World F → Option (World F)
  set_type t kind w = lookup t w.objects >>= λ o.
      some (record w { objects = insert t (record o { type = kind }) w.objects })

  module _ (heap : HeapOps deadline) where
    unfoldable pub delete_timer : ℕ → World F → World F
    delete_timer t w = record w {
      manager = remove_timer heap w.manager t;
      objects = erase t w.objects;
    }

    unfoldable pub start : ℕ → ℕ → World F → Option (World F)
    start t intervals w = do
      o ← lookup t w.objects
      let e = w.now + intervals
      let o' = record o { interals = some intervals; expired = some e }
      some (record w { manager = enable_timer heap w.manager t e; objects = insert t o' w.objects })

    unfoldable pub stop : ℕ → World F → Option (World F)
    stop t w =
        lookup t w.objects >>= λ o. some (record w { manager = disable_timer heap w.manager t })

    -- the end of `time_out`: a CIRCLE timer runs again
    unfoldable pub rearm : Kind → ℕ → Timer F → World F → World F
    rearm once t o w = w
    rearm circle t o w =
        let e = after w.now o.interals in
        record w {
          manager = enable_timer heap w.manager t e;
          objects = insert t (record o { expired = some e }) w.objects;
        }

    unfoldable pub restart : ℕ → World F → Option (World F)
    restart t w = lookup t w.objects >>= λ o. some (rearm o.type t o w)

    module _ (call : F → World F → Option (World F)) where
      unfoldable pub invoke : Option F → World F → Option (World F)
      invoke none w = some w
      invoke (some f) w = call f w

      unfoldable pub time_out : ℕ → World F → Option (World F)
      time_out t w = do o ← lookup t w.objects; w' ← invoke o.func w; restart t w'

      unfoldable pub time_outs : List ℕ → World F → Option (World F)
      time_outs [] w = some w
      time_outs (t ∷ ts) w = time_out t w >>= λ w'. time_outs ts w'

      -- One round of `run` after its sleep.
      unfoldable pub run_round : World F → Option (World F)
      run_round w =
          let (ts, m) = collect_due heap w.manager.actived_timers w.now w.manager in
          time_outs ts (record w { manager = m })

      -- `run`, on what the clock reads after each sleep
      unfoldable pub run : List ℕ → World F → Option (World F)
      run [] w = some w
      run (now ∷ more) w =
          if w.stop_flag then some w else (run_round (record w { now = now }) >>= λ w'. run more w')
