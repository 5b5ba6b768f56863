-- ===== src/Scheduler/Queue.antt =====
-- The queues of one worker in Absolute-Runtime/src/tasks.cpp, `WorkerQueue`, and how work is taken from
-- them: by the worker itself, and by others, which take none that is pinned.
pub mod Sizes
pub mod Removal
pub mod Taking
use absolute.Prelude.{
  ℕ, zero, suc, Bool, true, false, not, ◌&&◌, ◌||◌, List, [], ◌∷◌, map, Option, none, some, ltb,
  if◌then◌else◌,
}
use absolute.Prelude.Int.{ℤ}
use absolute.Scheduler.Priority.{choose_priority}
use absolute.Scheduler.Lanes.{Work, Bucket, no_work, Taken, take}

-- A set of lanes has seven priorities.
pub record WorkerQueue : Type 0 where
  pub ready : List Bucket
  pub pinned : List Bucket
  pub local_credits : List ℤ
  pub steal_credits : List ℤ
  pub take_pinned_next : List Bool

abbrev pub counts : List Bucket → List ℕ
counts [] = []
counts (b ∷ bs) = b.count ∷ counts bs

-- The bucket of a priority; the index is always in range.
abbrev pub bucket_at : ℕ → List Bucket → Bucket
bucket_at k [] = no_work
bucket_at zero (b ∷ bs) = b
bucket_at (suc k) (b ∷ bs) = bucket_at k bs

abbrev pub set_at : {A : Type 0} → ℕ → A → List A → List A
set_at k x [] = []
set_at zero x (y ∷ ys) = x ∷ ys
set_at (suc k) x (y ∷ ys) = y ∷ set_at k x ys

abbrev pub flag_at : ℕ → List Bool → Bool
flag_at k [] = false
flag_at zero (x ∷ xs) = x
flag_at (suc k) (x ∷ xs) = flag_at k xs

-- Whether work was found, with the queue behind the call and what is still queued in all.
pub data Took : Type 0 where
  nothing : WorkerQueue → Took
  takes : Work → WorkerQueue → ℕ → Took
  aborts : Took

-- The bucket that `TakeLaneLocked` leaves is put back into its set.
abbrev pub put_back : (Bucket → WorkerQueue) → WorkerQueue → Taken → Took
put_back put q Taken.nothing = nothing q
put_back put q (Taken.takes work b queued) = takes work (put b) queued
put_back put q Taken.aborts = aborts

abbrev pub take_pinned : ℕ → WorkerQueue → ℕ → Took
take_pinned k q queued =
    put_back (λ b. record q { pinned = set_at k b q.pinned }) q (take (bucket_at k q.pinned) queued)

abbrev pub take_ready_at : ℕ → WorkerQueue → ℕ → Took
take_ready_at k q queued =
    put_back (λ b. record q { ready = set_at k b q.ready }) q (take (bucket_at k q.ready) queued)

-- `hasReady`, `hasPinned` and `usePinned`
abbrev pub has_ready : ℕ → WorkerQueue → Bool
has_ready k q = ltb 0 (bucket_at k q.ready).count

abbrev pub has_pinned : ℕ → WorkerQueue → Bool
has_pinned k q = ltb 0 (bucket_at k q.pinned).count

abbrev pub use_pinned : ℕ → WorkerQueue → Bool
use_pinned k q = has_pinned k q && (not (has_ready k q) || flag_at k q.take_pinned_next)

-- The two sets take turns where both have work.
abbrev pub next_turns : ℕ → WorkerQueue → List Bool
next_turns k q =
    if has_ready k q && has_pinned k q
    then set_at k (not (use_pinned k q)) q.take_pinned_next
    else q.take_pinned_next

abbrev pub turn : ℕ → WorkerQueue → WorkerQueue
turn k q = record q { take_pinned_next = next_turns k q }

unfoldable pub take_local_at : Option ℕ → WorkerQueue → ℕ → Took
unfolding take
take_local_at none q queued = nothing q
take_local_at (some k) q queued =
    if use_pinned k q then take_pinned k (turn k q) queued else take_ready_at k (turn k q) queued

-- `TakeLocalLocked`
unfoldable pub take_local : WorkerQueue → ℕ → Took
unfolding take_local_at choose_priority
take_local q queued =
    let (credits, selected) =
      choose_priority q.local_credits (counts q.ready) (some (counts q.pinned)) in
    take_local_at selected (record q { local_credits = credits }) queued

unfoldable pub take_stealable_at : Option ℕ → WorkerQueue → ℕ → Took
unfolding take
take_stealable_at none q queued = nothing q
take_stealable_at (some k) q queued = take_ready_at k q queued

-- `TakeStealableLocked`
unfoldable pub take_stealable : WorkerQueue → ℕ → Took
unfolding take_stealable_at choose_priority
take_stealable q queued =
    let (credits, selected) = choose_priority q.steal_credits (counts q.ready) none in
    take_stealable_at selected (record q { steal_credits = credits }) queued
