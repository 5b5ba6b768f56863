-- ===== src/Scheduler/Lanes/Forms.antt =====
-- Lanes that are well formed, and how work is queued in them.
use absolute.Prelude.{
  ℕ, ◌+◌, ◌≡◌, ◌⊎◌, inl, inr, refl, ap, true, false, List, [], ◌∷◌, ◌++◌, Option, none, some, ◌==◌,
  ==_iff, if◌then◌else◌, arith, length, Bool-cases,
}
use mathlib.Core.Path.{subst}
use absolute.Scheduler.Lanes.{Work, Bucket, updated, lane_at, enqueue}
use absolute.Scheduler.Lanes.Sums.{
  has, Distinct, total, HasRole, has-append, Distinct-append, total-append, updated-same,
  total-updated, total-pushed,
}

-- A role is ready where it has a lane, which is not empty.
abbrev pub LaneFits : (ℕ → Option (List Work)) → List ℕ → ℕ → Type 0
LaneFits lanes roles r =
    ((has r roles ≡ true)
      × ((w : Work) × (ws : List Work) × (lanes r ≡ some (w ∷ ws)) × HasRole r (w ∷ ws)))
    ⊎ ((has r roles ≡ false) × (lanes r ≡ none))

abbrev pub WellFormed : Bucket → Type 0
WellFormed b =
    Distinct b.ready_roles
    × ((r : ℕ) → LaneFits b.lanes b.ready_roles r)
    × (b.count ≡ total b.lanes b.ready_roles)

pub HasRole-append :
    (role : ℕ) (lane : List Work) (work : Work)
    → HasRole role lane
    → work.role ≡ role
    → HasRole role (lane ++ work ∷ [])
HasRole-append role [] work h e = (e, tt)
HasRole-append role (w ∷ lane) work (g, h) e = (g, HasRole-append role lane work h e)

pub has-other :
    (roles : List ℕ) (role r : ℕ) → (role == r) ≡ false → has r (roles ++ role ∷ []) ≡ has r roles
has-other roles role r h = ground (arith, has-append r role roles, h)

pub has-last : (roles : List ℕ) (role : ℕ) → has role (roles ++ role ∷ []) ≡ true
has-last roles role = ground (arith, has-append role role roles)

-- A lane that changes at one role, with the ready roles.
pub fits-updated :
    (lanes : ℕ → Option (List Work)) (role : ℕ) (val : Option (List Work)) (roles roles' : List ℕ)
    → ((r : ℕ) → LaneFits lanes roles r)
    → ((r : ℕ) → (role == r) ≡ false → has r roles' ≡ has r roles)
    → LaneFits (λ r. val) roles' role
    → (r : ℕ) → LaneFits (updated lanes role val) roles' r
fits-updated lanes role val roles roles' f h k r = elim (Bool-cases (role == r)) [
  | inl same ↦
      let eq : role ≡ r = (==_iff role r).0 same in
      let there : LaneFits (λ x. val) roles' r = subst (LaneFits (λ x. val) roles') eq k in
      rw same there
  | inr other ↦ rw (other, h r other) (f r)
]

-- `EnqueueLaneLocked` keeps the lanes well formed, counts one more, and puts the work behind what its
-- role has.
pub enqueue-lem :
    (work : Work) (b : Bucket) (queued : ℕ)
    → WellFormed b
    → (let (b', queued') = enqueue work (b, queued) in
        WellFormed b'
        × (b'.count ≡ b.count + 1)
        × (queued' ≡ queued + 1)
        × ((r : ℕ)
            → lane_at (b'.lanes r)
              ≡ (if work.role == r then lane_at (b.lanes r) ++ work ∷ [] else lane_at (b.lanes r))))
unfolding enqueue
enqueue-lem work b queued (d, f, c) = (formed (f work.role), refl, refl, lanes)
  where
    lanes :
        (r : ℕ)
        → lane_at (updated b.lanes work.role (some (lane_at (b.lanes work.role) ++ work ∷ [])) r)
          ≡ (if work.role == r then lane_at (b.lanes r) ++ work ∷ [] else lane_at (b.lanes r))
    lanes r = elim (Bool-cases (work.role == r)) [
      | inl same ↦ rw (same, (==_iff work.role r).0 same) refl
      | inr other ↦ rw other refl
    ]

    formed : LaneFits b.lanes b.ready_roles work.role → WellFormed (enqueue work (b, queued)).0
    formed (inl (ready, (w, ws, e, h))) = rw e (
      d,
      fits-updated b.lanes work.role (some ((w ∷ ws) ++ work ∷ [])) b.ready_roles b.ready_roles f
          (λ r o. refl)
          (inl (ready, (w, ws ++ work ∷ [], refl, HasRole-append work.role (w ∷ ws) work h refl))),
      c_one,
    )
      where
        c_one :
            b.count + 1
            ≡ total (updated b.lanes work.role (some ((w ∷ ws) ++ work ∷ []))) b.ready_roles
        c_one =
            let pushed = total-pushed b.lanes work work.role b.ready_roles d ready in
            omega (arith, c, rw e at pushed)
    formed (inr (absent, e)) = rw e (
      Distinct-append work.role b.ready_roles d absent,
      fits-updated b.lanes work.role (some (work ∷ [])) b.ready_roles
          (b.ready_roles ++ work.role ∷ []) f (λ r o. has-other b.ready_roles work.role r o)
          (inl (has-last b.ready_roles work.role, (work, [], refl, (refl, tt)))),
      new_role,
    )
      where
        new_role :
            b.count + 1
            ≡ total (updated b.lanes work.role (some (work ∷ []))) (b.ready_roles ++ work.role ∷ [])
        new_role =
            let lanes' = updated b.lanes work.role (some (work ∷ [])) in
            omega (
              arith,
              c,
              total-append lanes' work.role b.ready_roles,
              total-updated b.lanes work.role (some (work ∷ [])) b.ready_roles absent,
              ap (λ p. length (lane_at p)) (updated-same b.lanes work.role (some (work ∷ []))),
            )
