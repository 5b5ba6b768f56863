-- ===== src/Scheduler/Control/Deadlines.antt =====
-- The effective deadline of a chain, and when a task is cancelled.
use absolute.Prelude.{
  ℕ, ◌+◌, ◌-◌, ◌*◌, ◌/◌, ◌^◌, ◌≤◌, ◌<◌, ◌≡◌, ◌⊎◌, inl, inr, refl, ◌∙◌, true, List, [], ◌∷◌, ◌++◌,
  ltb, leb, ◌==◌, arith, Bool-cases,
}
use absolute.Prelude.Int.{pos, negsuc}
use absolute.Scheduler.Control.{
  Control, earlier, earliest_from, effective_deadline, control_cancelled, maximum, deadline_at,
  lower_deadline, set_deadline_after, remaining_milliseconds,
}

-- The deadline is that of a control in the list, or the one that was there before.
abbrev pub Among : ℕ → ℕ → List Control → Type 0
Among effective before [] = effective ≡ before
Among effective before (c ∷ cs) = (effective ≡ c.deadline) ⊎ Among effective before cs

-- No control in the list has an earlier one.
abbrev pub NoneEarlier : ℕ → List Control → Type 0
NoneEarlier effective [] = Unit
NoneEarlier effective (c ∷ cs) =
    ((c.deadline ≡ 0) ⊎ ((0 < effective) × (effective ≤ c.deadline))) × NoneEarlier effective cs

earlier-le :
    (candidate effective : ℕ)
    → ((candidate ≡ 0)
        ⊎ ((0 < earlier candidate effective) × (earlier candidate effective ≤ candidate)))
      × ((effective ≡ 0)
          ⊎ ((0 < earlier candidate effective) × (earlier candidate effective ≤ effective)))
      × ((earlier candidate effective ≡ candidate) ⊎ (earlier candidate effective ≡ effective))
unfolding earlier
earlier-le candidate effective = ground arith

earliest_from-le :
    (effective : ℕ) (cs : List Control)
    → ((effective ≡ 0)
        ⊎ ((0 < earliest_from effective cs) × (earliest_from effective cs ≤ effective)))
      × NoneEarlier (earliest_from effective cs) cs
      × Among (earliest_from effective cs) effective cs
unfolding earliest_from
earliest_from-le effective [] = ground arith
earliest_from-le effective (c ∷ cs) =
    let (a, n, m) = earliest_from-le (earlier c.deadline effective) cs in
    let (p, q, r) = earlier-le c.deadline effective in
    (ground (arith, a, q), (ground (arith, a, p), n), among c cs m r)
  where
    among :
        (c : Control) (cs : List Control) {e x before : ℕ}
        → Among e x cs
        → (x ≡ c.deadline) ⊎ (x ≡ before)
        → (e ≡ c.deadline) ⊎ Among e before cs
    among c [] p (inl q) = inl (p ∙ q)
    among c [] p (inr q) = inr (p ∙ q)
    among c (d ∷ ds) (inl p) r = inr (inl p)
    among c (d ∷ ds) (inr p) r = elim (among c ds p r) [ inl q ↦ inl q | inr q ↦ inr (inr q) ]

-- The effective deadline of a chain is the deadline of one of its controls, or 0; each control of the
-- chain has no deadline or one that is not earlier.
pub effective_deadline-earliest :
    (cs : List Control)
    → NoneEarlier (effective_deadline cs) cs × Among (effective_deadline cs) 0 cs
unfolding effective_deadline
effective_deadline-earliest cs = let (a, n, m) = earliest_from-le 0 cs in (n, m)

NoneEarlier-at :
    (e : ℕ) (below above : List Control) (c : Control)
    → NoneEarlier e (below ++ c ∷ above)
    → (c.deadline ≡ 0) ⊎ ((0 < e) × (e ≤ c.deadline))
NoneEarlier-at e [] above c (h, n) = h
NoneEarlier-at e (b ∷ below) above c (h, n) = NoneEarlier-at e below above c n

lower_deadline-le :
    (deadline : ℕ) (c : Control)
    → 0 < deadline
    → (0 < (lower_deadline deadline c).deadline)
      × ((lower_deadline deadline c).deadline ≤ deadline)
      × ((c.deadline ≡ 0) ⊎ ((lower_deadline deadline c).deadline ≤ c.deadline))
unfolding lower_deadline
lower_deadline-le deadline c h = ground arith

deadline_at-le :
    (now milliseconds : ℕ)
    → 0 < now
    → now ≤ maximum
    → (0 < deadline_at now milliseconds)
      × (deadline_at now milliseconds ≤ now + milliseconds * 1000000)
      × (deadline_at now milliseconds ≤ maximum)
unfolding deadline_at
deadline_at-le now milliseconds h k = ground arith

passed-cancelled :
    (now : ℕ) (cs : List Control)
    → 0 < effective_deadline cs
    → effective_deadline cs ≤ now
    → control_cancelled now cs ≡ true
unfolding control_cancelled
passed-cancelled now cs h k = ground arith

-- A deadline that is set takes effect, and is never put off: a time that is not negative is accepted,
-- the deadline is not later than before, where there was one, and from the time on a task whose chain
-- holds the control is cancelled.
pub set_deadline_after-cancels :
    (now later milliseconds : ℕ) (c : Control) (below above : List Control)
    → 0 < now
    → now ≤ maximum
    → now + milliseconds * 1000000 ≤ later
    → let (accepted, c') = set_deadline_after now (pos milliseconds) c in
      (accepted ≡ true)
      × ((c.deadline ≡ 0) ⊎ (c'.deadline ≤ c.deadline))
      × (control_cancelled later (below ++ c' ∷ above) ≡ true)
unfolding set_deadline_after
set_deadline_after-cancels now later milliseconds c below above h k l =
    let (p, q, r) = deadline_at-le now milliseconds h k in
    let (x, y, z) = lower_deadline-le (deadline_at now milliseconds) c p in
    let c' = lower_deadline (deadline_at now milliseconds) c in
    let chain = below ++ c' ∷ above in
    elim (NoneEarlier-at (effective_deadline chain) below above c'
      (effective_deadline-earliest chain).0) [
        | inl never ↦ absurd (omega (arith, x, never))
        | inr (some_time, soon) ↦
            (refl, z, passed-cancelled later chain some_time (omega (arith, soon, y, q, l)))
      ]

-- The milliseconds that remain are rounded up: behind them the deadline has passed, except where they
-- are the most that 32 bits hold, and one less is too few. Without a deadline the answer is -1.
pub remaining_milliseconds-exact :
    (now : ℕ) (cs : List Control)
    → ((effective_deadline cs ≡ 0) × (remaining_milliseconds now cs ≡ negsuc 0))
      ⊎ ((m : ℕ) × (remaining_milliseconds now cs ≡ pos m)
          × ((m ≡ 2 ^ 31 - 1) ⊎ (effective_deadline cs ≤ now + m * 1000000))
          × ((m ≡ 0) ⊎ (now + (m - 1) * 1000000 < effective_deadline cs)))
unfolding remaining_milliseconds
remaining_milliseconds-exact now cs = elim (Bool-cases (effective_deadline cs == 0)) [
  | inl none_set ↦ inl (ground (arith, none_set))
  | inr set ↦ elim (Bool-cases (leb (effective_deadline cs) now)) [
    | inl passed ↦ inr (0, rw (set, passed) refl, ground (arith, passed), inl refl)
    | inr ahead ↦
        elim (Bool-cases (ltb ((effective_deadline cs - now + 999999) / 1000000) (2 ^ 31 - 1))) [
          | inl small ↦ inr (
            (effective_deadline cs - now + 999999) / 1000000,
            rw (set, ahead, small) refl,
            inr (ground (arith, ahead)),
            ground (arith, ahead),
          )
          | inr large ↦ inr (
            2 ^ 31 - 1,
            rw (set, ahead, large) refl,
            inl refl,
            inr (ground (arith, ahead, large)),
          )
        ]
  ]
]
