-- ===== src/Scheduler/Lanes/Histories.antt =====
-- Histories of the lanes of a priority: work is queued and taken in any order.
use absolute.Prelude.{
  ℕ, ◌+◌, ◌≡◌, inl, inr, refl, sym, ap, ◌∙◌, List, [], ◌∷◌, ◌++◌, ◌==◌, if◌then◌else◌, arith,
  length, length-append, Bool-cases,
}
use mathlib.Core.Path.{subst}
use mathlib.Core.List.{append_assoc, append-nil}
use absolute.Sync.{Reach, Reach-keeps}
use absolute.Scheduler.Lanes.{Work, Bucket, no_work, lane_at, enqueue, takes, take}
use absolute.Scheduler.Lanes.Forms.{WellFormed, enqueue-lem}
use absolute.Scheduler.Lanes.Service.{Serves, take-Serves}

-- The lanes, the number of what is queued in them, and the work that was queued and taken so far.
pub record System : Type 0 where
  pub bucket : Bucket
  pub queued : ℕ
  pub entered : List Work
  pub taken : List Work

abbrev pub start : System
start = record { bucket = no_work; queued = 0; entered = []; taken = [] }

pub data Step (s u : System) : Type 0 where
  enqueues :
      (work : Work)
      → (let (b, n) = enqueue work (s.bucket, s.queued) in
          u ≡ record s { bucket = b; queued = n; entered = s.entered ++ work ∷ [] })
      → Step s u
  serves :
      (work : Work) (b : Bucket) (n : ℕ)
      → take s.bucket s.queued ≡ takes work b n
      → u ≡ record s { bucket = b; queued = n; taken = s.taken ++ work ∷ [] }
      → Step s u

-- The work of a role.
abbrev pub of_role : ℕ → List Work → List Work
of_role role [] = []
of_role role (work ∷ works) =
    if work.role == role then work ∷ of_role role works else of_role role works

abbrev pub Inv : System → Type 0
Inv s =
    WellFormed s.bucket
    × (s.bucket.count ≡ s.queued)
    × (length s.entered ≡ length s.taken + s.queued)
    × ((role : ℕ) → of_role role s.entered ≡ of_role role s.taken ++ lane_at (s.bucket.lanes role))

of_role-append :
    (role : ℕ) (works : List Work) (work : Work)
    → of_role role (works ++ work ∷ []) ≡ of_role role works ++ of_role role (work ∷ [])
of_role-append role [] work = refl
of_role-append role (w ∷ works) work = elim (Bool-cases (w.role == role)) [
  | inl same ↦ rw same (ap (w ∷◌) (of_role-append role works work))
  | inr other ↦ rw other (of_role-append role works work)
]

-- Work at the back of its lane, and at the front.
behind_lane :
    (role : ℕ) (work : Work) (lane : List Work)
    → (if work.role == role then lane ++ work ∷ [] else lane) ≡ lane ++ of_role role (work ∷ [])
behind_lane role work lane = elim (Bool-cases (work.role == role)) [
  | inl same ↦ rw same refl
  | inr other ↦ rw other (sym (append-nil lane))
]

before_lane :
    (role : ℕ) (work : Work) (lane : List Work)
    → (if work.role == role then work ∷ lane else lane) ≡ of_role role (work ∷ []) ++ lane
before_lane role work lane = elim (Bool-cases (work.role == role)) [
  | inl same ↦ rw same refl
  | inr other ↦ rw other refl
]

Step-Inv : (s u : System) → Step s u → Inv s → Inv u
Step-Inv s u (enqueues work f) (w, c, n, o) =
    let (w', c', q', lanes) = enqueue-lem work s.bucket s.queued w in
    rw f (
      w',
      omega (arith, c, c', q'),
      omega (arith, n, q', length-append s.entered (work ∷ [])),
      λ role.
          of_role-append role s.entered work
          ∙ ap (λ x. x ++ of_role role (work ∷ [])) (o role)
          ∙ append_assoc (of_role role s.taken) (lane_at (s.bucket.lanes role))
              (of_role role (work ∷ []))
          ∙ ap (of_role role s.taken ++◌)
              (sym (lanes role ∙ behind_lane role work (lane_at (s.bucket.lanes role)))),
    )
Step-Inv s u (serves work b m e f) (w, c, n, o) =
    let (w', c', q', lanes, rest) =
      subst (Serves s.bucket s.queued) e (take-Serves s.bucket s.queued w (omega (arith, c))) in
    rw f (
      w',
      omega (arith, c, c', q'),
      omega (arith, n, q', length-append s.taken (work ∷ [])),
      λ role.
          o role
          ∙ ap (of_role role s.taken ++◌)
              (lanes role ∙ before_lane role work (lane_at (b.lanes role)))
          ∙ sym (
              append_assoc (of_role role s.taken) (of_role role (work ∷ []))
                (lane_at (b.lanes role)))
          ∙ ap (λ x. x ++ lane_at (b.lanes role)) (sym (of_role-append role s.taken work)),
    )

-- In every history of the lanes of a priority, their work is counted; for each role, what was queued
-- is what was taken, in the same order, and behind it what is in its lane. A further call takes the
-- first work of the first of the ready roles, which is put behind the others where it has more, finds
-- nothing only where nothing is queued, and does not call `std::abort`.
pub Reach-Lanes :
    (u : System) → Reach Step start u → Inv u × Serves u.bucket u.queued (take u.bucket u.queued)
Reach-Lanes u r =
    let (w, c, n, o) =
      Reach-keeps Step Inv Step-Inv
        ((tt, (λ role. inr (refl, refl)), refl), refl, refl, λ role. refl) r in
    ((w, c, n, o), take-Serves u.bucket u.queued w (omega (arith, c)))
