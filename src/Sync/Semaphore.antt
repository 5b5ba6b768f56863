-- ===== src/Sync/Semaphore.antt =====
-- `SemaphoreImpl` of Absolute-Runtime/src/tasks.cpp.
pub mod Histories
use absolute.Prelude.{
  ℕ, ◌+◌, ◌-◌, ◌<◌, Bool, true, false, ◌||◌, List, [], Option, none, some, ltb, leb, ◌==◌,
  if◌then◌else◌, take, drop,
}
use absolute.Prelude.Int.{ℤ, pos, negsuc}
use absolute.Sync.{Caller, Round, returns, waits, queue_up}

-- The permits are never negative, and never more than the maximum.
pub record Semaphore : Type 0 where
  pub permits : ℕ
  pub maximum : ℕ
  pub waiters : List ℕ

-- `absolute_semaphore_create`, which gives null where the numbers are out of range.
unfoldable pub create : ℤ → ℤ → Option Semaphore
create (pos initial) (pos maximum) =
    if maximum == 0 || ltb maximum initial
    then none
    else some (record { permits = initial; maximum = maximum; waiters = [] })
create initial maximum = none

-- A round of `absolute_semaphore_acquire`.
unfoldable pub acquire : Caller → Semaphore → Round Semaphore (Unit {0})
acquire caller s =
    if ltb 0 s.permits
    then returns tt (record s { permits = s.permits - 1 }) []
    else waits (record s { waiters = queue_up caller s.waiters })

unfoldable pub try_acquire : Semaphore → Bool × Semaphore
try_acquire s = if s.permits == 0 then (false, s) else (true, record s { permits = s.permits - 1 })

-- `absolute_semaphore_release`, with the tasks that it resumes, one for each permit.
unfoldable pub release : ℤ → Semaphore → (Bool × List ℕ) × Semaphore
release (negsuc n) s = ((false, []), s)
release (pos permits) s =
    if permits == 0 || ltb (s.maximum - s.permits) permits then ((false, []), s) else (
      (true, take permits s.waiters),
      record s { permits = s.permits + permits; waiters = drop permits s.waiters },
    )

-- `absolute_semaphore_available`
unfoldable pub available : Semaphore → ℕ
available s = s.permits
