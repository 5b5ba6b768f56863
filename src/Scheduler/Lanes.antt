-- ===== src/Scheduler/Lanes.antt =====
-- One priority of a `LaneSet` of Absolute-Runtime/src/tasks.cpp: a queue of work for each role, and
-- the roles that have work, in the order in which they are served. A role is a text that is only
-- compared; it stands as a number, as the pointers do. Counters stay below 2 ^ 64.
pub mod Sums
pub mod Forms
pub mod Service
pub mod Histories
use absolute.Prelude.{
  ℕ, ◌+◌, ◌-◌, Bool, List, [], ◌∷◌, ◌++◌, Option, none, some, ◌==◌, if◌then◌else◌,
}
use absolute.Prelude.Int.{ℤ}

pub record Work : Type 0 where
  pub task : ℕ
  pub entry : ℕ
  pub core : ℤ
  pub priority : ℤ
  pub role : ℕ

pub record Bucket : Type 0 where
  pub lanes : ℕ → Option (List Work)
  pub ready_roles : List ℕ
  pub count : ℕ

abbrev pub no_work : Bucket
no_work = record { lanes = λ role. none; ready_roles = []; count = 0 }

abbrev pub updated : {A : Type 0} → (ℕ → A) → ℕ → A → ℕ → A
updated f role val other = if role == other then val else f other

-- `lanes[bucket][role]`, which is empty where there was none.
abbrev pub lane_at : Option (List Work) → List Work
lane_at none = []
lane_at (some lane) = lane

-- The role at the back, where it had no work.
abbrev pub announce : List Work → ℕ → List ℕ → List ℕ
announce [] role roles = roles ++ role ∷ []
announce (work ∷ lane) role roles = roles

-- `EnqueueLaneLocked`, with the number of all that is queued.
unfoldable pub enqueue : Work → Bucket × ℕ → Bucket × ℕ
enqueue work (b, queued) =
    let lane = lane_at (b.lanes work.role) in
    (
      record {
        lanes = updated b.lanes work.role (some (lane ++ work ∷ []));
        ready_roles = announce lane work.role b.ready_roles;
        count = b.count + 1;
      },
      queued + 1,
    )

-- `TakeLaneLocked` finds nothing, takes work, or calls `std::abort`.
pub data Taken : Type 0 where
  nothing : Taken
  takes : Work → Bucket → ℕ → Taken
  aborts : Taken

-- The role that was served goes to the back where it has more work, and is erased else.
abbrev pub served : ℕ → List ℕ → List Work → Bucket → Bucket
served role roles [] b = record {
  lanes = updated b.lanes role none;
  ready_roles = roles;
  count = b.count - 1;
}
served role roles (next ∷ lane) b = record {
  lanes = updated b.lanes role (some (next ∷ lane));
  ready_roles = roles ++ role ∷ [];
  count = b.count - 1;
}

-- The test of `ConsumeQueuedLocked` that something is queued is the last.
unfoldable pub take_role : ℕ → List ℕ → Option (List Work) → Bucket → ℕ → Taken
take_role role roles none b queued = aborts
take_role role roles (some []) b queued = aborts
take_role role roles (some (work ∷ lane)) b queued =
    if queued == 0 then aborts else takes work (served role roles lane b) (queued - 1)

unfoldable pub take_ready : List ℕ → Bucket → ℕ → Taken
unfolding take_role
take_ready [] b queued = aborts
take_ready (role ∷ roles) b queued = take_role role roles (b.lanes role) b queued

unfoldable pub take : Bucket → ℕ → Taken
unfolding take_ready
take b queued = if b.count == 0 then nothing else take_ready b.ready_roles b queued
