-- ===== src/Sync/Atomic.antt =====
-- The atomic numbers of Absolute-Runtime/src/tasks.cpp, as bit patterns of 64 bits: addition and
-- subtraction wrap. Each function is one step.
use absolute.Prelude.{
  ℕ, ◌+◌, ◌-◌, ◌%◌, ◌^◌, ◌≡◌, refl, Bool, true, false, List, [], ◌∷◌, arith, ◌==◌, if◌then◌else◌,
}

abbrev pub word : ℕ
word = 2 ^ 64

-- `absolute_atomic_fetch_add` and `absolute_atomic_fetch_sub`: the value of before, and the new one.
unfoldable pub fetch_add : ℕ → ℕ → ℕ × ℕ
fetch_add val atomic = (atomic, (atomic + val) % word)

unfoldable pub fetch_sub : ℕ → ℕ → ℕ × ℕ
fetch_sub val atomic = (atomic, (atomic + (word - val % word)) % word)

-- `absolute_atomic_load` and `absolute_atomic_store`
unfoldable pub load : ℕ → ℕ
load atomic = atomic

unfoldable pub store : ℕ → ℕ → ℕ
store val atomic = val % word

unfoldable pub compare_exchange : ℕ → ℕ → ℕ → Bool × ℕ
compare_exchange expected desired atomic =
    if atomic == expected then (true, desired) else (false, atomic)

-- Additions and subtractions, in the order in which they take effect.
pub data Update : Type 0 where
  adds subtracts : ℕ → Update

unfoldable pub apply : Update → ℕ → ℕ
unfolding fetch_add fetch_sub
apply (adds val) atomic = (fetch_add val atomic).1
apply (subtracts val) atomic = (fetch_sub val atomic).1

unfoldable pub apply_all : List Update → ℕ → ℕ
unfolding apply
apply_all [] atomic = atomic
apply_all (u ∷ us) atomic = apply_all us (apply u atomic)

-- What was added, and what was subtracted.
abbrev pub added : List Update → ℕ
added [] = 0
added (adds val ∷ us) = val + added us
added (subtracts val ∷ us) = added us

abbrev pub subtracted : List Update → ℕ
subtracted [] = 0
subtracted (adds val ∷ us) = subtracted us
subtracted (subtracts val ∷ us) = val + subtracted us

-- After any updates, in whatever order they took effect, the value and what was subtracted are the
-- value of before and what was added, modulo 2 ^ 64: no update is lost.
pub apply_all-sum :
    (us : List Update) (atomic : ℕ)
    → (apply_all us atomic + subtracted us) % word ≡ (atomic + added us) % word
unfolding apply_all
apply_all-sum [] atomic = refl
apply_all-sum (adds val ∷ us) atomic = omega (arith, apply_all-sum us ((atomic + val) % word))
apply_all-sum (subtracts val ∷ us) atomic =
    omega (arith, apply_all-sum us ((atomic + (word - val % word)) % word))
