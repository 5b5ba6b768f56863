-- ===== src/Sync/Once/Histories.antt =====
-- Histories of a once-object: calls of any callers in any order.
use absolute.Prelude.{
  ℕ, suc, ◌≤◌, ◌≡◌, ◌≢◌, ◌⊎◌, inl, inr, refl, true, false, [], arith, ◌==◌, if◌then◌else◌,
  Bool-cases,
}
use absolute.Sync.{Caller, returns, waits, queue_up, Reach, Reach-keeps}
use absolute.Sync.Once.{Once, initial, begin, complete, reset}

-- A once-object, the callers that were told to run the body and have not ended, how often the body
-- was completed, and how often a caller was told that it is complete.
pub record System : Type 0 where
  pub once : Once
  pub running : ℕ
  pub completions : ℕ
  pub told : ℕ

abbrev pub start : System
start = record { once = initial; running = 0; completions = 0; told = 0 }

pub data Step (s u : System) : Type 0 where
  runs :
      (caller : Caller) (m : Once)
      → begin caller s.once ≡ returns true m []
      → u ≡ record s { once = m; running = suc s.running }
      → Step s u
  learns :
      (caller : Caller) (m : Once)
      → begin caller s.once ≡ returns false m []
      → u ≡ record s { once = m; told = suc s.told }
      → Step s u
  sleeps :
      (caller : Caller) (m : Once)
      → begin caller s.once ≡ waits m
      → u ≡ record s { once = m }
      → Step s u
  completes :
      (n : ℕ)
      → s.running ≡ suc n
      → u ≡ record s { once = (complete s.once).0; running = n; completions = suc s.completions }
      → Step s u
  resets :
      (n : ℕ) → s.running ≡ suc n → u ≡ record s { once = (reset s.once).0; running = n } → Step s u

abbrev pub Inv : System → Type 0
Inv s =
    (s.once.state ≤ 2)
    × (s.running ≡ (if s.once.state == 1 then 1 else 0))
    × (s.completions ≡ (if s.once.state == 2 then 1 else 0))
    × ((s.told ≡ 0) ⊎ (s.once.state ≡ 2))
    × ((s.once.waiters ≡ []) ⊎ (s.once.state ≡ 1))

begin-true :
    (caller : Caller) (o m : Once)
    → begin caller o ≡ returns true m []
    → (o.state ≡ 0) × (m ≡ record o { state = 1 })
unfolding begin
begin-true caller o m e = elim (Bool-cases (o.state == 2)) [
  | inl ended ↦ ground (arith, e, ended)
  | inr going ↦ elim (Bool-cases (o.state == 0)) [
    | inl idle ↦ ground (arith, e, going, idle)
    | inr busy ↦ ground (arith, e, going, busy)
  ]
]

begin-false :
    (caller : Caller) (o m : Once) → begin caller o ≡ returns false m [] → (o.state ≡ 2) × (m ≡ o)
unfolding begin
begin-false caller o m e = elim (Bool-cases (o.state == 2)) [
  | inl ended ↦ ground (arith, e, ended)
  | inr going ↦ elim (Bool-cases (o.state == 0)) [
    | inl idle ↦ ground (arith, e, going, idle)
    | inr busy ↦ ground (arith, e, going, busy)
  ]
]

begin-waits :
    (caller : Caller) (o m : Once)
    → begin caller o ≡ waits m
    → (o.state ≢ 2) × (o.state ≢ 0) × (m ≡ record o { waiters = queue_up caller o.waiters })
unfolding begin
begin-waits caller o m e = elim (Bool-cases (o.state == 2)) [
  | inl ended ↦ ground (arith, e, ended)
  | inr going ↦ elim (Bool-cases (o.state == 0)) [
    | inl idle ↦ ground (arith, e, going, idle)
    | inr busy ↦ ground (arith, e, going, busy)
  ]
]

running-one : (s : System) (n : ℕ) → s.running ≡ suc n → Inv s → (s.once.state ≡ 1) × (n ≡ 0)
running-one s n e (b, r, c, t, w) = ground (arith, e, r)

Step-Inv : (s u : System) → Step s u → Inv s → Inv u
unfolding complete reset
Step-Inv s u (runs caller m e f) (b, r, c, t, w) =
    let (idle, g) = begin-true caller s.once m e in
    rw (f, g)
      (
        omega arith,
        ground (arith, r, idle),
        ground (arith, c, idle),
        ground (arith, t, idle),
        inr refl,
      )
Step-Inv s u (learns caller m e f) (b, r, c, t, w) =
    let (ended, g) = begin-false caller s.once m e in rw (f, g) (b, r, c, inr ended, w)
Step-Inv s u (sleeps caller m e f) (b, r, c, t, w) =
    let (going, busy, g) = begin-waits caller s.once m e in
    rw (f, g) (b, r, c, t, inr (omega (arith, b, going, busy)))
Step-Inv s u (completes n h f) v =
    let (one, none_left) = running-one s n h v in
    rw (f, one) (omega arith, none_left, ground (arith, one, v.2), inr refl, inl refl)
Step-Inv s u (resets n h f) v =
    let (one, none_left) = running-one s n h v in
    rw (f, one)
      (omega arith, none_left, ground (arith, one, v.2), ground (arith, one, v.3), inl refl)

-- In every history at most one caller runs the body at a time, the body is completed at most once,
-- a caller is told that it is complete only when it is, and a task waits only while it runs.
pub Reach-Once : (u : System) → Reach Step start u → Inv u
Reach-Once u = Reach-keeps Step Inv Step-Inv (omega arith, refl, refl, inl refl, inl refl)
