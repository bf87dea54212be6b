-- ===== src/Timers/Reach.antt =====
-- Every state of the manager that the client can bring about.
use cc_mqtt311_libs.Base.{ℕ, ◌≤◌, Bool, length}
use cc_mqtt311_libs.Timers.{
  TimerMgr, empty_mgr, alloc_timer, free_timer, timer_wait, timer_cancel, timer_set_suspended, tick,
}
use cc_mqtt311_libs.Timers.Invariant.{Inv, Holds}

module _ {ℓ} {A : Type ℓ} where
  -- One use of the manager by the client. What runs on a handle has the handle in use.
  pub data Step (max_size : ℕ) : TimerMgr A → TimerMgr A → Type ℓ where
    allocates : (m : TimerMgr A) → Step max_size m (alloc_timer max_size m).0
    frees : (m : TimerMgr A) (idx : ℕ) → Holds m idx → Step max_size m (free_timer m idx)
    waits :
        (m : TimerMgr A) (idx ms : ℕ) (cb : A)
        → Holds m idx
        → Step max_size m (timer_wait m idx ms cb)
    cancels : (m : TimerMgr A) (idx : ℕ) → Step max_size m (timer_cancel m idx)
    suspends : (m : TimerMgr A) (idx : ℕ) (s : Bool) → Step max_size m (timer_set_suspended m idx s)
    ticks : (m : TimerMgr A) (ms : ℕ) → Step max_size m (tick ms m).0

  pub data Reach (max_size : ℕ) : TimerMgr A → Type ℓ where
    start : Reach max_size empty_mgr
    next : {m n : TimerMgr A} → Reach max_size m → Step max_size m n → Reach max_size n

  pub record Safe (max_size : ℕ) (m : TimerMgr A) : Type ℓ where
    pub inv : Inv m
    pub fits : length m.timers ≤ max_size
