-- ===== src/Scheduler/Lanes/Service.antt =====
-- How roles are served.
use absolute.Prelude.{
  ℕ, ◌+◌, ◌-◌, ◌≤◌, ◌<◌, ◌≡◌, inl, inr, refl, sym, ap, ◌∙◌, true, false, List, [], ◌∷◌, ◌++◌,
  Option, none, some, ◌==◌, ==_iff, if◌then◌else◌, arith, length, Bool-cases,
}
use mathlib.Core.Path.{subst}
use absolute.Scheduler.Lanes.{
  Work, Bucket, updated, lane_at, Taken, nothing, takes, aborts, served, take_role, take_ready,
  take,
}
use absolute.Scheduler.Lanes.Sums.{
  has, Distinct, total, HasRole, Distinct-append, total-append, updated-same, total-updated,
}
use absolute.Scheduler.Lanes.Forms.{LaneFits, WellFormed, has-other, has-last, fits-updated}

total-has :
    (lanes : ℕ → Option (List Work)) (r : ℕ) (roles : List ℕ)
    → has r roles ≡ true
    → length (lane_at (lanes r)) ≤ total lanes roles
total-has lanes r [] h = ground (arith, h)
total-has lanes r (x ∷ roles) h = elim (Bool-cases (x == r)) [
  | inl same ↦ rw (sym ((==_iff x r).0 same)) (omega arith)
  | inr other ↦ omega (arith, total-has lanes r roles (ground (arith, h, other)))
]

-- What a call of `TakeLaneLocked` does: nothing where there is no work, or it takes the first work of
-- the first role, which goes to the back where it has more.
abbrev pub Serves : Bucket → ℕ → Taken → Type 0
Serves b queued nothing = (b.count ≡ 0) × ((r : ℕ) → lane_at (b.lanes r) ≡ [])
Serves b queued (takes work b' left) =
    WellFormed b'
    × (b.count ≡ b'.count + 1)
    × (queued ≡ left + 1)
    × ((r : ℕ)
        → lane_at (b.lanes r)
          ≡ (if work.role == r then work ∷ lane_at (b'.lanes r) else lane_at (b'.lanes r)))
    × ((roles : List ℕ) × (b.ready_roles ≡ work.role ∷ roles)
        × (b'.ready_roles
            ≡ (if has work.role b'.ready_roles then roles ++ work.role ∷ [] else roles)))
Serves b queued aborts = ⊥

no_work_left : (b : Bucket) → WellFormed b → b.count ≡ 0 → (r : ℕ) → lane_at (b.lanes r) ≡ []
no_work_left b (d, f, c) z r = elim (f r) [
  | inl (ready, (w, ws, e, h)) ↦
      absurd (
        omega
          (arith, z, c, total-has b.lanes r b.ready_roles ready, ap (λ p. length (lane_at p)) e))
  | inr (absent, e) ↦ ap lane_at e
]

lanes-served :
    (b : Bucket) (work : Work) (lane : List Work) (val : Option (List Work))
    → b.lanes work.role ≡ some (work ∷ lane)
    → lane_at val ≡ lane
    → (r : ℕ)
    → lane_at (b.lanes r) ≡ (
        if work.role == r
        then work ∷ lane_at (updated b.lanes work.role val r)
        else lane_at (updated b.lanes work.role val r))
lanes-served b work lane val e v r = elim (Bool-cases (work.role == r)) [
  | inl same ↦
      let first : lane_at (b.lanes r) ≡ work ∷ lane =
        ap (λ x. lane_at (b.lanes x)) (sym ((==_iff work.role r).0 same)) ∙ ap lane_at e in
      rw (same, v) first
  | inr other ↦ rw other refl
]

served-lem :
    (b : Bucket) (queued left : ℕ) (roles : List ℕ) (work : Work) (lane : List Work)
    → WellFormed b
    → b.ready_roles ≡ work.role ∷ roles
    → b.lanes work.role ≡ some (work ∷ lane)
    → HasRole work.role lane
    → queued ≡ left + 1
    → Serves b queued (takes work (served work.role roles lane b) left)
served-lem b queued left roles work lane (d, f, c) e l h q = at lane refl
  where
    absent : has work.role roles ≡ false
    absent = (subst Distinct e d).0

    distinct : Distinct roles
    distinct = (subst Distinct e d).1

    counts : b.count ≡ length lane + 1 + total b.lanes roles
    counts = omega (arith, c ∙ ap (total b.lanes) e, ap (λ p. length (lane_at p)) l)

    fits : (r : ℕ) → LaneFits b.lanes (work.role ∷ roles) r
    fits r = subst (λ x. LaneFits b.lanes x r) e (f r)

    at :
        (rest : List Work)
        → lane ≡ rest
        → Serves b queued (takes work (served work.role roles rest b) left)
    at [] g = (
      (
        distinct,
        fits-updated b.lanes work.role none (work.role ∷ roles) roles fits (λ r o. rw o refl)
            (inr (absent, refl)),
        omega (arith, counts, ap length g, total-updated b.lanes work.role none roles absent),
      ),
      omega (arith, counts),
      q,
      lanes-served b work [] none (l ∙ ap (λ x. some (work ∷ x)) g) refl,
      (roles, e, rw absent refl),
    )
    at (next ∷ rest) g =
        let val : Option (List Work) = some (next ∷ rest) in
        let lanes' = updated b.lanes work.role val in
        (
          (
            Distinct-append work.role roles distinct absent,
            fits-updated b.lanes work.role val (work.role ∷ roles) (roles ++ work.role ∷ []) fits
                (λ r o. rw (has-other roles work.role r o, o) refl)
                (inl (has-last roles work.role, (next, rest, refl, subst (HasRole work.role) g h))),
            omega (
              arith,
              counts,
              ap length g,
              total-append lanes' work.role roles,
              total-updated b.lanes work.role val roles absent,
              ap (λ p. length (lane_at p)) (updated-same b.lanes work.role val),
            ),
          ),
          omega (arith, counts),
          q,
          lanes-served b work (next ∷ rest) val (l ∙ ap (λ x. some (work ∷ x)) g) refl,
          (roles, e, rw (has-last roles work.role) refl),
        )

-- `TakeLaneLocked` serves well-formed lanes, and does not call `std::abort`.
pub take-Serves :
    (b : Bucket) (queued : ℕ) → WellFormed b → b.count ≤ queued → Serves b queued (take b queued)
unfolding take take_ready take_role
take-Serves b queued (d, f, c) h = elim (Bool-cases (b.count == 0)) [
  | inl empty ↦
      let z : b.count ≡ 0 = (==_iff b.count 0).0 empty in rw empty (z, no_work_left b (d, f, c) z)
  | inr some_work ↦ rw some_work (from b.ready_roles refl (ground (arith, some_work)))
]
  where
    at_role :
        (role : ℕ) (roles : List ℕ)
        → b.ready_roles ≡ role ∷ roles
        → LaneFits b.lanes (role ∷ roles) role
        → 0 < queued
        → Serves b queued (take_role role roles (b.lanes role) b queued)
    at_role role roles e (inr (absent, l)) p = ground (arith, absent)
    at_role role roles e (inl (ready, (work, lane, l, (same, g)))) p =
        let some_left : (queued == 0) ≡ false = ground (arith, p) in
        rw (l, some_left)
          (subst (λ r. Serves b queued (takes work (served r roles lane b) (queued - 1))) same
            (served-lem b queued (queued - 1) roles work lane (d, f, c)
              (e ∙ ap (λ r. r ∷ roles) (sym same)) (ap b.lanes same ∙ l)
              (subst (λ r. HasRole r lane) (sym same) g) (omega (arith, p))))

    from :
        (roles : List ℕ)
        → b.ready_roles ≡ roles
        → 0 < b.count
        → Serves b queued (take_ready roles b queued)
    from [] e p = absurd (omega (arith, p, c ∙ ap (total b.lanes) e))
    from (role ∷ roles) e p =
        at_role role roles e (subst (λ x. LaneFits b.lanes x role) e (f role)) (omega (arith, p, h))
