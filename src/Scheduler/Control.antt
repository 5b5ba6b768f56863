-- ===== src/Scheduler/Control.antt =====
-- `TaskControl` of Absolute-Runtime/src/tasks.cpp: a request to cancel and a deadline. The chain of
-- `parent` pointers is a list that starts at the control itself. Times are nanoseconds of the steady
-- clock, not negative; a deadline of 0 is none.
pub mod Deadlines
use absolute.Prelude.{
  ℕ, ◌+◌, ◌-◌, ◌*◌, ◌/◌, ◌^◌, Bool, true, false, ◌&&◌, ◌||◌, List, [], ◌∷◌, ltb, leb, ◌==◌,
  if◌then◌else◌,
}
use absolute.Prelude.Int.{ℤ, pos, negsuc}

pub record Control : Type 0 where
  pub cancel_requested : Bool
  pub deadline : ℕ

abbrev pub no_control : Control
no_control = record { cancel_requested = false; deadline = 0 }

-- The body of the loop of `EffectiveDeadlineNanoseconds`.
unfoldable pub earlier : ℕ → ℕ → ℕ
earlier candidate effective =
    if ltb 0 candidate && (effective == 0 || ltb candidate effective) then candidate else effective

unfoldable pub earliest_from : ℕ → List Control → ℕ
unfolding earlier
earliest_from effective [] = effective
earliest_from effective (c ∷ cs) = earliest_from (earlier c.deadline effective) cs

-- `EffectiveDeadlineNanoseconds`
unfoldable pub effective_deadline : List Control → ℕ
unfolding earliest_from
effective_deadline controls = earliest_from 0 controls

abbrev pub some_cancelled : List Control → Bool
some_cancelled [] = false
some_cancelled (c ∷ cs) = c.cancel_requested || some_cancelled cs

-- `ControlCancelled`
unfoldable pub control_cancelled : (now : ℕ) → List Control → Bool
unfolding effective_deadline
control_cancelled now controls =
    some_cancelled controls
    || (ltb 0 (effective_deadline controls) && leb (effective_deadline controls) now)

abbrev pub maximum : ℕ
maximum = 2 ^ 63 - 1

-- The sum of the deadline, which stays at the maximum where it would be more.
unfoldable pub deadline_at : (now milliseconds : ℕ) → ℕ
deadline_at now milliseconds =
    if ltb (maximum - now) (milliseconds * 1000000) then maximum else now + milliseconds * 1000000

-- The loop with `compare_exchange_weak`, on the value that it finds when it ends.
unfoldable pub lower_deadline : ℕ → Control → Control
lower_deadline deadline c =
    if c.deadline == 0 || ltb deadline c.deadline then record c { deadline = deadline } else c

-- `SetControlDeadlineAfter`, of a control that is not null.
unfoldable pub set_deadline_after : (now : ℕ) → (milliseconds : ℤ) → Control → Bool × Control
unfolding deadline_at lower_deadline
set_deadline_after now (negsuc n) c = (false, c)
set_deadline_after now (pos milliseconds) c =
    (true, lower_deadline (deadline_at now milliseconds) c)

-- `RemainingDeadlineMilliseconds`
unfoldable pub remaining_milliseconds : (now : ℕ) → List Control → ℤ
unfolding effective_deadline
remaining_milliseconds now controls =
    let deadline = effective_deadline controls in
    let milliseconds = (deadline - now + 999999) / 1000000 in
    if deadline == 0
    then negsuc 0
    else if leb deadline now
    then pos 0
    else if ltb milliseconds (2 ^ 31 - 1)
    then pos milliseconds
    else pos (2 ^ 31 - 1)
