-- ===== src/Scheduler/Lanes/Sums.antt =====
-- Roles with work, and how much work they have.
use absolute.Prelude.{
  ℕ, ◌+◌, ◌≡◌, inl, inr, refl, ap, ap₂, ◌∙◌, Bool, true, false, ◌||◌, List, [], ◌∷◌, ◌++◌, Option,
  some, ◌==◌, ==_iff, arith, length, length-append, Bool-cases,
}
use absolute.Scheduler.Lanes.{Work, updated, lane_at}

abbrev pub has : ℕ → List ℕ → Bool
has role [] = false
has role (r ∷ roles) = (r == role) || has role roles

abbrev pub Distinct : List ℕ → Type 0
Distinct [] = Unit
Distinct (r ∷ roles) = (has r roles ≡ false) × Distinct roles

abbrev pub total : (ℕ → Option (List Work)) → List ℕ → ℕ
total lanes [] = 0
total lanes (r ∷ roles) = length (lane_at (lanes r)) + total lanes roles

-- Each piece of work in a lane has its role.
abbrev pub HasRole : ℕ → List Work → Type 0
HasRole role [] = Unit
HasRole role (work ∷ lane) = (work.role ≡ role) × HasRole role lane

pub has-append :
    (role r : ℕ) (roles : List ℕ) → has role (roles ++ r ∷ []) ≡ has role roles || (r == role)
has-append role r [] = ground arith
has-append role r (x ∷ roles) = ground (arith, has-append role r roles)

pub Distinct-append :
    (role : ℕ) (roles : List ℕ)
    → Distinct roles
    → has role roles ≡ false
    → Distinct (roles ++ role ∷ [])
Distinct-append role [] d h = (refl, tt)
Distinct-append role (r ∷ roles) (e, d) h = (
  ground (arith, has-append r role roles, e, h),
  Distinct-append role roles d (ground (arith, h)),
)

pub total-append :
    (lanes : ℕ → Option (List Work)) (role : ℕ) (roles : List ℕ)
    → total lanes (roles ++ role ∷ []) ≡ total lanes roles + length (lane_at (lanes role))
total-append lanes role [] = omega arith
total-append lanes role (r ∷ roles) = omega (arith, total-append lanes role roles)

pub updated-same : {A : Type 0} (f : ℕ → A) (role : ℕ) (val : A) → updated f role val role ≡ val
updated-same f role val = ground arith

pub updated-other :
    {A : Type 0} (f : ℕ → A) (role other : ℕ) (val : A)
    → (role == other) ≡ false
    → updated f role val other ≡ f other
updated-other f role other val h = rw h refl

-- A lane of a role that is not in the list does not count.
pub total-updated :
    (lanes : ℕ → Option (List Work)) (role : ℕ) (val : Option (List Work)) (roles : List ℕ)
    → has role roles ≡ false
    → total (updated lanes role val) roles ≡ total lanes roles
total-updated lanes role val [] h = refl
total-updated lanes role val (r ∷ roles) h =
    let other : (role == r) ≡ false = ground (arith, h) in
    ap₂ (λ p q. length (lane_at p) + q) (updated-other lanes role r val other)
      (total-updated lanes role val roles (ground (arith, h)))

-- One of a role that is in the list counts once.
pub total-pushed :
    (lanes : ℕ → Option (List Work)) (work : Work) (role : ℕ) (roles : List ℕ)
    → Distinct roles
    → has role roles ≡ true
    → total (updated lanes role (some (lane_at (lanes role) ++ work ∷ []))) roles
      ≡ total lanes roles + 1
total-pushed lanes work role [] d h = ground (arith, h)
total-pushed lanes work role (r ∷ roles) (e, d) h = elim (Bool-cases (role == r)) [
  | inl same ↦
      let eq : role ≡ r = (==_iff role r).0 same in
      rw
        (
          same,
          total-updated lanes role (some (lane_at (lanes role) ++ work ∷ [])) roles
              (ap (λ x. has x roles) eq ∙ e),
          eq,
        )
        (omega (arith, length-append (lane_at (lanes r)) (work ∷ [])))
  | inr other ↦
      rw other (omega (arith, total-pushed lanes work role roles d (ground (arith, h, other))))
]
