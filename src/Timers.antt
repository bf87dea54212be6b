-- ===== src/Timers.antt =====
-- client/lib/src/TimerMgr.h and TimerMgr.cpp. The callback and its data pointer are one value of
-- type `A`; `none` is the null callback. A timer's handle is its index.
pub mod Invariant
pub mod Alloc
pub mod Reach
pub mod MinWait
use cc_mqtt311_libs.Base.{
  ℕ, zero, suc, ◌+◌, ◌-◌, ◌^◌, min, Bool, true, false, not, ◌&&◌, ◌||◌, Option, none, some, List,
  [], ◌∷◌, ◌++◌, ltb, leb, ◌==◌, if◌then◌else◌, length, get_elem?, set, find_index, count_if,
  is_some,
}

-- `Timer::InvalidIdx` and `std::numeric_limits<unsigned>::max()`
abbrev pub unsigned_max : ℕ
unsigned_max = 2 ^ 32 - 1

-- `std::numeric_limits<std::uint64_t>::max()`
abbrev pub uint64_max : ℕ
uint64_max = 2 ^ 64 - 1

-- `Timer::isValid`
abbrev pub is_valid : ℕ → Bool
is_valid idx = ltb idx unsigned_max

pub record TimerInfo {ℓ} (A : Type ℓ) : Type ℓ where
  pub timeout_ms : ℕ
  pub timeout_cb : Option A
  pub allocated : Bool
  pub suspended : Bool

pub record TimerMgr {ℓ} (A : Type ℓ) : Type ℓ where
  pub timers : List (TimerInfo A)
  pub allocated_timers : ℕ

module _ {ℓ} {A : Type ℓ} where
  -- `TimerInfo()`
  abbrev pub fresh_info : TimerInfo A
  fresh_info = record { timeout_ms = 0; timeout_cb = none; allocated = false; suspended = false }

  abbrev pub empty_mgr : TimerMgr A
  empty_mgr = record { timers = []; allocated_timers = 0 }

  abbrev pub is_free : TimerInfo A → Bool
  is_free info = not info.allocated

  -- The lambda `createTimer`, at an index inside the storage.
  unfoldable pub create_timer : TimerMgr A → ℕ → TimerMgr A × ℕ
  create_timer m idx = (
    record m {
      timers = elim (get_elem? m.timers idx) [
        | none ↦ m.timers
        | some info ↦ set m.timers idx (record info { allocated = true })
      ];
      allocated_timers = m.allocated_timers + 1;
    },
    idx,
  )

  -- The storage grows by one default entry.
  unfoldable pub grow_storage : TimerMgr A → TimerMgr A
  grow_storage m = record m { timers = m.timers ++ fresh_info ∷ [] }

  unfoldable pub grow_or_fail : ℕ → TimerMgr A → TimerMgr A × ℕ
  unfolding create_timer grow_storage
  grow_or_fail max_size m =
      if leb max_size (length m.timers)
      then (m, unsigned_max)
      else create_timer (grow_storage m) (length m.timers)

  -- `max_size` is that of the storage type, which depends on the configuration.
  unfoldable pub alloc_timer : ℕ → TimerMgr A → TimerMgr A × ℕ
  unfolding create_timer grow_or_fail
  alloc_timer max_size m =
      let idx = find_index is_free m.timers in
      if ltb m.allocated_timers (length m.timers) && ltb idx (length m.timers)
      then create_timer m idx
      else grow_or_fail max_size m

  unfoldable pub free_timer : TimerMgr A → ℕ → TimerMgr A
  free_timer m idx = elim (get_elem? m.timers idx) [
    | none ↦ m
    | some info ↦ record {
      timers = set m.timers idx fresh_info;
      allocated_timers = m.allocated_timers - 1;
    }
  ]

  unfoldable pub timer_wait : TimerMgr A → ℕ → ℕ → A → TimerMgr A
  timer_wait m idx timeout_ms cb = elim (get_elem? m.timers idx) [
    | none ↦ m
    | some info ↦ record m {
      timers = set m.timers idx (record info { timeout_ms = timeout_ms; timeout_cb = some cb });
    }
  ]

  abbrev pub cancelled : TimerInfo A → TimerInfo A
  cancelled info = record info { timeout_ms = 0; timeout_cb = none }

  unfoldable pub timer_cancel : TimerMgr A → ℕ → TimerMgr A
  timer_cancel m idx = elim (get_elem? m.timers idx) [
    | none ↦ m
    | some info ↦ record m { timers = set m.timers idx (cancelled info) }
  ]

  unfoldable pub timer_is_active : TimerMgr A → ℕ → Bool
  timer_is_active m idx = elim (get_elem? m.timers idx) [
    | none ↦ false
    | some info ↦ is_some info.timeout_cb
  ]

  unfoldable pub timer_set_suspended : TimerMgr A → ℕ → Bool → TimerMgr A
  timer_set_suspended m idx suspended = elim (get_elem? m.timers idx) [
    | none ↦ m
    | some info ↦ record m { timers = set m.timers idx (record info { suspended = suspended }) }
  ]

  unfoldable pub timer_is_suspended : TimerMgr A → ℕ → Bool
  timer_is_suspended m idx = elim (get_elem? m.timers idx) [
    | none ↦ false
    | some info ↦ info.suspended
  ]

  -- `~Timer`
  unfoldable pub destroy_timer : TimerMgr A → ℕ → TimerMgr A
  unfolding free_timer
  destroy_timer m idx = if is_valid idx then free_timer m idx else m

  unfoldable pub set_suspended : TimerMgr A → ℕ → Bool → TimerMgr A
  unfolding timer_is_active timer_set_suspended
  set_suspended m idx suspended =
      if not (timer_is_active m idx) then m else timer_set_suspended m idx suspended

  unfoldable pub is_suspended : TimerMgr A → ℕ → Bool
  unfolding timer_is_active timer_is_suspended
  is_suspended m idx = if not (timer_is_active m idx) then false else timer_is_suspended m idx

  -- The condition of `tick` and `getMinWait` under which an entry is passed over.
  abbrev pub is_skipped : TimerInfo A → Bool
  is_skipped info = not info.allocated || not (is_some info.timeout_cb) || info.suspended

  -- One round of the first loop of `tick`: the entry after it, and what it pushes to `cbList`.
  unfoldable pub tick_info : ℕ → TimerInfo A → TimerInfo A × List A
  tick_info ms info =
      if is_skipped info
      then (info, [])
      else if leb info.timeout_ms ms
      then (cancelled info, elim info.timeout_cb [ none ↦ [] | some cb ↦ cb ∷ [] ])
      else (record info { timeout_ms = info.timeout_ms - ms }, [])

  unfoldable pub tick_infos : ℕ → List (TimerInfo A) → List (TimerInfo A) × List A
  unfolding tick_info
  tick_infos ms [] = ([], [])
  tick_infos ms (info ∷ rest) =
      let (info', cbs) = tick_info ms info in
      let (rest', more) = tick_infos ms rest in (info' ∷ rest', cbs ++ more)

  -- The first loop, with the list `cbList` that it leaves to the second one, which the client runs.
  unfoldable pub tick : ℕ → TimerMgr A → TimerMgr A × List A
  unfolding tick_infos
  tick ms m = let (infos, cbs) = tick_infos ms m.timers in (record m { timers = infos }, cbs)

  unfoldable pub min_timeout : ℕ → List (TimerInfo A) → ℕ
  min_timeout result [] = result
  min_timeout result (info ∷ rest) =
      min_timeout (if is_skipped info then result else min result info.timeout_ms) rest

  unfoldable pub get_min_wait : TimerMgr A → ℕ
  unfolding min_timeout
  get_min_wait m =
      let result = min_timeout uint64_max m.timers in
      if m.allocated_timers == 0
      then 0
      else if result == uint64_max
      then 0
      else min result unsigned_max

  unfoldable pub alloc_count : TimerMgr A → ℕ
  alloc_count m = count_if (λ info. info.allocated) m.timers
