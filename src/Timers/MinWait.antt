-- ===== src/Timers/MinWait.antt =====
-- What `TimerMgr::getMinWait` promises about `TimerMgr::tick`.
use cc_mqtt311_libs.Base.{ℕ, ◌≤◌, ◌<◌, ◌≡◌, ◌≢◌, refl, List, [], ◌∷◌, arith, min}
use cc_mqtt311_libs.Timers.{
  TimerInfo, TimerMgr, tick, tick_infos, min_timeout, get_min_wait, unsigned_max, uint64_max,
}

module _ {ℓ} {A : Type ℓ} where
  min_timeout-le : (r : ℕ) (xs : List (TimerInfo A)) → min_timeout r xs ≤ r
  unfolding min_timeout
  min_timeout-le r [] = omega arith
  min_timeout-le r (x ∷ xs) =
      ground (arith, min_timeout-le r xs, min_timeout-le (min r x.timeout_ms) xs)

  early_empty :
      (ms r : ℕ) (xs : List (TimerInfo A)) → ms < min_timeout r xs → (tick_infos ms xs).1 ≡ []
  unfolding min_timeout tick_infos
  early_empty ms r [] h = refl
  early_empty ms r (x ∷ xs) h = ground (
    arith,
    early_empty ms r xs,
    early_empty ms (min r x.timeout_ms) xs,
    min_timeout-le (min r x.timeout_ms) xs,
  )

  due_fires :
      (ms r : ℕ) (xs : List (TimerInfo A))
      → min_timeout r xs ≤ ms
      → min_timeout r xs < r
      → (tick_infos ms xs).1 ≢ []
  unfolding min_timeout tick_infos
  due_fires ms r [] h k = omega arith
  due_fires ms r (x ∷ xs) h k = ground (
    arith,
    due_fires ms r xs,
    due_fires ms (min r x.timeout_ms) xs,
    min_timeout-le (min r x.timeout_ms) xs,
  )

  -- No timer fires before the wait that getMinWait gives is over.
  pub get_min_wait-early : (m : TimerMgr A) (ms : ℕ) → ms < get_min_wait m → (tick ms m).1 ≡ []
  unfolding get_min_wait tick
  get_min_wait-early m ms k = ground (arith, early_empty ms uint64_max m.timers)

  -- When a programmed wait (not 0) of getMinWait is over some timer fires, unless the wait was cut
  -- to the largest unsigned.
  pub get_min_wait-due :
      (m : TimerMgr A)
      → 0 < get_min_wait m
      → get_min_wait m < unsigned_max
      → (tick (get_min_wait m) m).1 ≢ []
  unfolding get_min_wait tick
  get_min_wait-due m h k =
      ground
        (arith, due_fires (get_min_wait m) uint64_max m.timers, min_timeout-le uint64_max m.timers)
