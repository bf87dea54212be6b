-- ===== src/Examples/TimerRuns.antt =====
-- A timer manager with three entries: one armed and running, one in use and idle, one free.
use cc_mqtt311_libs.Base.{ℕ, ◌≡◌, ◌≢◌, refl, true, false, none, some, [], ◌∷◌, arith}
use cc_mqtt311_libs.Timers.{
  TimerInfo, TimerMgr, fresh_info, empty_mgr, alloc_timer, timer_wait, tick, get_min_wait,
}
use cc_mqtt311_libs.Timers.Reach.{Reach}
use cc_mqtt311_libs.Timers.MinWait.{get_min_wait-early, get_min_wait-due}

abbrev armed : ℕ → TimerInfo ℕ
armed ms = record { timeout_ms = ms; timeout_cb = some ms; allocated = true; suspended = false }

abbrev idle_timer : TimerInfo ℕ
idle_timer = record { timeout_ms = 0; timeout_cb = none; allocated = true; suspended = false }

abbrev three_timers : TimerMgr ℕ
three_timers = record { timers = armed 50 ∷ idle_timer ∷ fresh_info ∷ []; allocated_timers = 2 }

abbrev one_timer : TimerMgr ℕ
one_timer = (alloc_timer 2 empty_mgr).0

abbrev run_timer : TimerMgr ℕ
run_timer = (tick 30 (timer_wait one_timer 0 100 7)).0

three_timers_wait : get_min_wait three_timers ≡ 50
unfolding get_min_wait
three_timers_wait = refl

early_example : (tick 49 three_timers).1 ≡ []
early_example = get_min_wait-early three_timers 49 (omega (arith, three_timers_wait))

due_example : (tick (get_min_wait three_timers) three_timers).1 ≢ []
due_example =
    get_min_wait-due three_timers (omega (arith, three_timers_wait))
      (omega (arith, three_timers_wait))
