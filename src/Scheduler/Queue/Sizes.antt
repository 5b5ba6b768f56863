-- ===== src/Scheduler/Queue/Sizes.antt =====
-- Sets of lanes: how much work they have, and what the choice of a priority finds in them.
use absolute.Prelude.{
  ℕ, zero, suc, ◌+◌, ◌≡◌, inl, inr, refl, ap, ◌∙◌, Bool, true, false, List, [], ◌∷◌, Option, none,
  some, arith, length,
}
use mathlib.Core.Path.{subst}
use absolute.Prelude.Int.{ℤ}
use absolute.Scheduler.Priority.{Best, scan, spend_at, settle, choose, priority_weights}
use absolute.Scheduler.Priority.Scan.{gained, Chosen, NoneActive, Found, scan-gained, scan-Found}
use absolute.Scheduler.Lanes.{Bucket}
use absolute.Scheduler.Lanes.Forms.{WellFormed}

abbrev pub work_in : List Bucket → ℕ
work_in [] = 0
work_in (b ∷ bs) = b.count + work_in bs

abbrev pub AllFormed : List Bucket → Type 0
AllFormed [] = Unit
AllFormed (b ∷ bs) = WellFormed b × AllFormed bs

-- What is at an index is active.
abbrev pub ActiveAt : ℕ → List Bool → Type 0
ActiveAt k [] = ⊥
ActiveAt zero (flag ∷ flags) = flag ≡ true
ActiveAt (suc k) (flag ∷ flags) = ActiveAt k flags

-- What the choice of a priority gives.
abbrev pub Selects : List Bool → Option ℕ → Type 0
Selects flags none = NoneActive flags
Selects flags (some k) = ActiveAt k flags

Chosen-active :
    (k : ℕ) (flags : List Bool) (cs : List ℤ) (c : ℤ) → Chosen k flags cs c → ActiveAt k flags
Chosen-active zero (flag ∷ flags) (x ∷ cs) c (e, f) = e
Chosen-active (suc k) (flag ∷ flags) (x ∷ cs) c h = Chosen-active k flags cs c h
Chosen-active zero [] cs c h = absurd h
Chosen-active (suc k) [] cs c h = absurd h
Chosen-active zero (flag ∷ flags) [] c h = absurd h
Chosen-active (suc k) (flag ∷ flags) [] c h = absurd h

length-spend_at : (k weight : ℕ) (cs : List ℤ) → length (spend_at k weight cs) ≡ length cs
unfolding spend_at
length-spend_at k weight [] = refl
length-spend_at zero weight (c ∷ cs) = refl
length-spend_at (suc k) weight (c ∷ cs) = ap suc (length-spend_at k weight cs)

length-gained :
    (ws : List ℕ) (flags : List Bool) (cs : List ℤ)
    → length flags ≡ length ws
    → length cs ≡ length ws
    → length (gained ws flags cs) ≡ length ws
unfolding gained
length-gained [] flags cs h k = refl
length-gained (w ∷ ws) [] cs h k = ground (arith, h)
length-gained (w ∷ ws) (flag ∷ flags) [] h k = ground (arith, k)
length-gained (w ∷ ws) (false ∷ flags) (c ∷ cs) h k =
    ap suc (length-gained ws flags cs (omega (arith, h)) (omega (arith, k)))
length-gained (w ∷ ws) (true ∷ flags) (c ∷ cs) h k =
    ap suc (length-gained ws flags cs (omega (arith, h)) (omega (arith, k)))

settle-Selects :
    (x : List ℤ × ℕ × Best) (flags : List Bool) (cs : List ℤ)
    → x.0 ≡ cs
    → Found 0 none flags cs x.2
    → (length (settle x).0 ≡ length cs) × Selects flags (settle x).1
settle-Selects (credits, weight, none) flags cs e (f, g) = (ap length e, g)
settle-Selects (credits, weight, some (c, j)) flags cs e (inl f, m, n) = ground (arith, f)
settle-Selects (credits, weight, some (c, j)) flags cs e (inr (i, f, g), m, n) =
    let same : i ≡ j = omega (arith, f) in
    (
      length-spend_at j weight credits ∙ ap length e,
      subst (λ x. ActiveAt x flags) same (Chosen-active i flags cs c g),
    )

-- The choice among the priorities gives one that is active, and none only where none is.
pub choose-Selects :
    (flags : List Bool) (credits : List ℤ)
    → length flags ≡ 7
    → length credits ≡ 7
    → (length (choose priority_weights flags credits).0 ≡ 7)
      × Selects flags (choose priority_weights flags credits).1
unfolding choose
choose-Selects flags credits h k =
    let (p, q) = scan-gained 0 none priority_weights flags credits h k in
    let (l, s) =
      settle-Selects (scan 0 none priority_weights flags credits) flags
        (gained priority_weights flags credits) p
        (scan-Found 0 none priority_weights flags credits h k) in
    (l ∙ length-gained priority_weights flags credits h k, s)
