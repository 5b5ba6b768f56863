-- ===== src/Scheduler/Queue/Removal.antt =====
-- What is left of lanes from which a piece of work was taken.
use absolute.Prelude.{
  ℕ, zero, suc, ◌<◌, ◌≡◌, ◌≢◌, ◌⊎◌, refl, sym, ap, ◌∙◌, List, [], ◌∷◌, ◌==◌, if◌then◌else◌, arith,
  length,
}
use mathlib.Core.Path.{subst}
use absolute.Scheduler.Lanes.{Work, Bucket, lane_at}
use absolute.Scheduler.Queue.{WorkerQueue, bucket_at, set_at}

-- The work is the first of the lane of its role, and that lane loses it; the other lanes stay.
abbrev pub Leaves : Work → Bucket → Bucket → Type 0
Leaves work b b' =
    (r : ℕ)
    → lane_at (b.lanes r)
      ≡ (if work.role == r then work ∷ lane_at (b'.lanes r) else lane_at (b'.lanes r))

-- One of the priorities loses the work, and the others stay.
abbrev pub Removes : Work → List Bucket → List Bucket → Type 0
Removes work bs bs' =
    (k : ℕ) × Leaves work (bucket_at k bs) (bucket_at k bs')
    × ((i : ℕ) → i ≢ k → bucket_at i bs' ≡ bucket_at i bs)

-- A queue loses the work, of those that are pinned or of those that are not.
abbrev pub TakesFrom : Work → WorkerQueue → WorkerQueue → Type 0
TakesFrom work q q' =
    (Removes work q.ready q'.ready × (q'.pinned ≡ q.pinned))
    ⊎ (Removes work q.pinned q'.pinned × (q'.ready ≡ q.ready))

bucket_at-set_at :
    (k : ℕ) (b : Bucket) (bs : List Bucket)
    → 0 < (bucket_at k bs).count
    → bucket_at k (set_at k b bs) ≡ b
bucket_at-set_at zero b [] h = absurd (omega (arith, h))
bucket_at-set_at (suc k) b [] h = absurd (omega (arith, h))
bucket_at-set_at zero b (x ∷ bs) h = refl
bucket_at-set_at (suc k) b (x ∷ bs) h = bucket_at-set_at k b bs h

bucket_at-set_at_other :
    (k i : ℕ) (b : Bucket) (bs : List Bucket) → i ≢ k → bucket_at i (set_at k b bs) ≡ bucket_at i bs
bucket_at-set_at_other k i b [] h = refl
bucket_at-set_at_other zero zero b (x ∷ bs) h = absurd (h refl)
bucket_at-set_at_other zero (suc i) b (x ∷ bs) h = refl
bucket_at-set_at_other (suc k) zero b (x ∷ bs) h = refl
bucket_at-set_at_other (suc k) (suc i) b (x ∷ bs) h =
    bucket_at-set_at_other k i b bs (λ e. h (ap suc e))

pub set_at-Removes :
    (k : ℕ) (work : Work) (b : Bucket) (bs : List Bucket)
    → 0 < (bucket_at k bs).count
    → Leaves work (bucket_at k bs) b
    → Removes work bs (set_at k b bs)
set_at-Removes k work b bs h l = (
  k,
  subst (Leaves work (bucket_at k bs)) (sym (bucket_at-set_at k b bs h)) l,
  λ i o. bucket_at-set_at_other k i b bs o,
)

-- Lanes that stay as they are have lost nothing.
pub Removes-same : (work : Work) (bs bs' : List Bucket) → Removes work bs bs' → bs' ≢ bs
Removes-same work bs bs' (k, l, o) e =
    let lane = lane_at ((bucket_at k bs).lanes work.role) in
    let shorter : lane ≡ work ∷ lane =
      subst (Leaves work (bucket_at k bs)) (ap (bucket_at k) e) l work.role ∙ own lane in
    absurd (omega (arith, ap length shorter))
  where
    own : (lane : List Work) → (if work.role == work.role then work ∷ lane else lane) ≡ work ∷ lane
    own lane = ground arith
