-- ===== src/Timers/Alloc.antt =====
-- What `TimerMgr::allocTimer` gives.
use cc_mqtt311_libs.Base.{
  ℕ, ◌+◌, ◌≤◌, ◌≡◌, ◌≢◌, inl, inr, false, [], ◌∷◌, arith, length, get_elem?, find_index,
  Option-cases, length-append, length-set,
}
use cc_mqtt311_libs.Timers.{
  TimerMgr, fresh_info, is_free, create_timer, grow_storage, grow_or_fail, alloc_timer,
  timer_is_active,
}
use cc_mqtt311_libs.Timers.Invariant.{Holds}

module _ {ℓ} {A : Type ℓ} where
  -- What an allocation gives: the old storage and its handles stay, one entry comes into use.
  pub record Allocated (m : TimerMgr A) (r : TimerMgr A × ℕ) : Type ℓ where
    pub was_free : ¬ Holds m r.1
    pub now_held : Holds r.0 r.1
    pub idle : timer_is_active r.0 r.1 ≡ false
    pub others : (j : ℕ) → j ≢ r.1 → get_elem? r.0.timers j ≡ get_elem? m.timers j

  length-create_timer :
      (m : TimerMgr A) (idx : ℕ) → length (create_timer m idx).0.timers ≡ length m.timers
  unfolding create_timer
  length-create_timer m idx = elim (Option-cases (get_elem? m.timers idx)) [
    | inl e ↦ rw (e, create_timer)
    | inr (info, e) ↦ rw (e, create_timer) (length-set m.timers idx _)
  ]

  length-grow_storage : (m : TimerMgr A) → length (grow_storage m).timers ≡ length m.timers + 1
  unfolding grow_storage
  length-grow_storage m = omega (arith, length-append m.timers (fresh_info ∷ []))

  pub length-alloc_timer :
      (max_size : ℕ) (m : TimerMgr A)
      → length m.timers ≤ max_size
      → length (alloc_timer max_size m).0.timers ≤ max_size
  unfolding alloc_timer grow_or_fail
  length-alloc_timer max_size m h = ground (
    arith,
    length-create_timer m (find_index is_free m.timers),
    length-create_timer (grow_storage m) (length m.timers),
    length-grow_storage m,
  )
