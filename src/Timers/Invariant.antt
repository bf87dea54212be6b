-- ===== src/Timers/Invariant.antt =====
-- The representation invariant of `TimerMgr`, over every use that keeps the discipline of the
-- handles: a handle is freed, armed or cancelled only while it is allocated.
use cc_mqtt311_libs.Base.{
  ℕ, ◌<◌, ◌≡◌, refl, inl, inr, Bool, true, false, none, some, List, [], ◌∷◌, arith, get_elem?, set,
  count_if, All, Option-cases, All-set, All-append, All-get_elem?, count_if-set, count_if-append,
}
use cc_mqtt311_libs.Timers.{
  TimerInfo, TimerMgr, fresh_info, empty_mgr, create_timer, grow_storage, free_timer, timer_wait,
  timer_cancel, cancelled, timer_set_suspended, tick, tick_info, tick_infos,
}

module _ {ℓ} {A : Type ℓ} where
  -- A free entry is idle, and an idle one has no time left.
  pub record WfInfo (info : TimerInfo A) : Type ℓ where
    pub free_idle : info.allocated ≡ false → info.timeout_cb ≡ none
    pub idle_zero : info.timeout_cb ≡ none → info.timeout_ms ≡ 0

  abbrev pub is_allocated : TimerInfo A → Bool
  is_allocated info = info.allocated

  pub record Inv (m : TimerMgr A) : Type ℓ where
    pub counted : m.allocated_timers ≡ count_if is_allocated m.timers
    pub infos : All WfInfo m.timers

  -- The entry at `idx` is in use.
  abbrev pub Holds : TimerMgr A → ℕ → Type ℓ
  Holds m idx =
      (info : TimerInfo A) × (get_elem? m.timers idx ≡ some info) × (info.allocated ≡ true)

  pub empty-Inv : Inv empty_mgr
  empty-Inv = record { counted = refl; infos = tt }

  pub create_timer-Inv :
      (m : TimerMgr A) (idx : ℕ) (info : TimerInfo A)
      → get_elem? m.timers idx ≡ some info
      → info.allocated ≡ false
      → Inv m
      → Inv (create_timer m idx).0
  unfolding create_timer
  create_timer-Inv m idx info e f v =
      rw (e, create_timer)
        (record {
          counted = ground (
            arith,
            count_if-set is_allocated m.timers idx info (record info { allocated = true }) e,
          );
          infos =
              All-set WfInfo m.timers idx _ v.infos
                (ground (arith, All-get_elem? WfInfo m.timers idx info v.infos e));
        })

  pub grow_storage-Inv : (m : TimerMgr A) → Inv m → Inv (grow_storage m)
  unfolding grow_storage
  grow_storage-Inv m v = record {
    counted = ground (arith, count_if-append is_allocated m.timers (fresh_info ∷ []));
    infos = All-append WfInfo m.timers (fresh_info ∷ []) v.infos (ground arith);
  }

  -- An entry in use is counted, so the counter does not fall below 0.
  pub count-pos : (m : TimerMgr A) (idx : ℕ) → Inv m → Holds m idx → 0 < m.allocated_timers
  count-pos m idx v (info, e, h) =
      ground (arith, v.counted, count_if-set is_allocated m.timers idx info fresh_info e)

  pub free_timer-Inv : (m : TimerMgr A) (idx : ℕ) → Inv m → Holds m idx → Inv (free_timer m idx)
  unfolding free_timer
  free_timer-Inv m idx v (info, e, h) =
      rw (e, free_timer)
        (record {
          counted =
              ground (arith, v.counted, count_if-set is_allocated m.timers idx info fresh_info e);
          infos = All-set WfInfo m.timers idx fresh_info v.infos (ground arith);
        })

  -- An entry that keeps its mark and stays well formed keeps the invariant.
  pub replace-Inv :
      (m : TimerMgr A) (idx : ℕ) (info info' : TimerInfo A)
      → get_elem? m.timers idx ≡ some info
      → info'.allocated ≡ info.allocated
      → WfInfo info'
      → Inv m
      → Inv (record m { timers = set m.timers idx info' })
  replace-Inv m idx info info' e same w v = record {
    counted = ground (arith, v.counted, count_if-set is_allocated m.timers idx info info' e);
    infos = All-set WfInfo m.timers idx info' v.infos w;
  }

  pub timer_wait-Inv :
      (m : TimerMgr A) (idx ms : ℕ) (cb : A) → Inv m → Holds m idx → Inv (timer_wait m idx ms cb)
  unfolding timer_wait
  timer_wait-Inv m idx ms cb v (info, e, h) =
      rw (e, timer_wait) (replace-Inv m idx info _ e refl (ground arith) v)

  pub timer_cancel-Inv : (m : TimerMgr A) (idx : ℕ) → Inv m → Inv (timer_cancel m idx)
  unfolding timer_cancel
  timer_cancel-Inv m idx v = elim (Option-cases (get_elem? m.timers idx)) [
    | inl e ↦ rw (e, timer_cancel) v
    | inr (info, e) ↦
        rw (e, timer_cancel) (replace-Inv m idx info (cancelled info) e refl (ground arith) v)
  ]

  pub timer_set_suspended-Inv :
      (m : TimerMgr A) (idx : ℕ) (s : Bool) → Inv m → Inv (timer_set_suspended m idx s)
  unfolding timer_set_suspended
  timer_set_suspended-Inv m idx s v = elim (Option-cases (get_elem? m.timers idx)) [
    | inl e ↦ rw (e, timer_set_suspended) v
    | inr (info, e) ↦
        rw (e, timer_set_suspended)
          (replace-Inv m idx info (record info { suspended = s }) e refl
            (ground (arith, All-get_elem? WfInfo m.timers idx info v.infos e)) v)
  ]

  pub tick_info-WfInfo : (ms : ℕ) (info : TimerInfo A) → WfInfo info → WfInfo (tick_info ms info).0
  unfolding tick_info
  tick_info-WfInfo ms info w = ground arith

  pub allocated-tick_info :
      (ms : ℕ) (info : TimerInfo A) → (tick_info ms info).0.allocated ≡ info.allocated
  unfolding tick_info
  allocated-tick_info ms info = ground arith

  pub tick_infos-Inv :
      (ms : ℕ) (xs : List (TimerInfo A))
      → All WfInfo xs
      → All WfInfo (tick_infos ms xs).0
        × (count_if is_allocated (tick_infos ms xs).0 ≡ count_if is_allocated xs)
  unfolding tick_infos
  tick_infos-Inv ms [] w = (tt, refl)
  tick_infos-Inv ms (x ∷ xs) w = (
    (tick_info-WfInfo ms x w.0, (tick_infos-Inv ms xs w.1).0),
    rw (allocated-tick_info ms x, (tick_infos-Inv ms xs w.1).1),
  )

  pub tick-Inv : (m : TimerMgr A) (ms : ℕ) → Inv m → Inv (tick ms m).0
  unfolding tick
  tick-Inv m ms v = record {
    counted = ground (arith, v.counted, (tick_infos-Inv ms m.timers v.infos).1);
    infos = (tick_infos-Inv ms m.timers v.infos).0;
  }
