-- ===== src/Sync/Condition/Histories.antt =====
-- Histories of a condition variable: waits and notifications in any order.
use absolute.Prelude.{
  ℕ, ◌<◌, ◌≡◌, ◌≢◌, inl, inr, refl, sym, ap, ◌∙◌, List, [], ◌∷◌, ◌++◌, arith, ltb, ◌==◌, ==_iff,
  Bool-cases, Option, none, some,
}
use mathlib.Core.List.{append_assoc, append-nil}
use absolute.Sync.Condition.{
  Condition, enlist, end_wait, next_generation, notify_one_at, notify_one, notify_all,
}

-- What happens to the condition: a wait begins, a thread outside the scheduler that observed a
-- generation goes on, or somebody notifies.
pub data Event : Type 0 where
  task_waits : ℕ → Event
  native_waits : Event
  native_wakes : ℕ → Event
  notifies_one : Event
  notifies_all : Event

abbrev or_stay : Condition → Option Condition → Condition
or_stay c none = c
or_stay c (some c') = c'

-- The condition and the tasks that were resumed so far, in order; a thread whose test fails waits on.
unfoldable pub step : Condition × List ℕ → Event → Condition × List ℕ
unfolding enlist end_wait notify_one notify_all
step (c, resumed) (task_waits t) = (enlist (some t) c, resumed)
step (c, resumed) native_waits = (enlist none c, resumed)
step (c, resumed) (native_wakes observed) = (or_stay c (end_wait observed c), resumed)
step (c, resumed) notifies_one = let (c', tasks) = notify_one c in (c', resumed ++ tasks)
step (c, resumed) notifies_all = let (c', tasks) = notify_all c in (c', resumed ++ tasks)

unfoldable pub run : Condition × List ℕ → List Event → Condition × List ℕ
unfolding step
run s [] = s
run s (e ∷ es) = run (step s e) es

-- The tasks that wait in a history, in order.
abbrev pub arrivals : List Event → List ℕ
arrivals [] = []
arrivals (task_waits t ∷ es) = t ∷ arrivals es
arrivals (e ∷ es) = arrivals es

notify_one-order :
    (ts : List ℕ) (c : Condition)
    → c.task_waiters ≡ ts
    → (notify_one_at ts c).1 ++ (notify_one_at ts c).0.task_waiters ≡ c.task_waiters
unfolding notify_one_at
notify_one-order (t ∷ ts) c e = sym e
notify_one-order [] c e = elim (Bool-cases (ltb 0 c.native_waiters)) [
  | inl some_one ↦ rw some_one refl
  | inr no_one ↦ rw no_one refl
]

end_wait-waiters :
    (observed : ℕ) (c : Condition) → (or_stay c (end_wait observed c)).task_waiters ≡ c.task_waiters
unfolding end_wait
end_wait-waiters observed c = elim (Bool-cases (c.generation == observed)) [
  | inl same ↦ rw same refl
  | inr other ↦ rw other refl
]

-- The tasks that arrived are those that were resumed, in the order in which they arrived, and behind
-- them those that wait: each notification wakes the task that waits longest, and none is lost or
-- resumed twice.
pub run-order :
    (c : Condition) (resumed : List ℕ) (es : List Event)
    → let (c', resumed') = run (c, resumed) es in
      resumed' ++ c'.task_waiters ≡ (resumed ++ c.task_waiters) ++ arrivals es
unfolding run
run-order c resumed [] = sym (append-nil _)
run-order c resumed (task_waits t ∷ es) =
    run-order (enlist (some t) c) resumed es
    ∙ ap (λ x. x ++ arrivals es) (sym (append_assoc resumed c.task_waiters (t ∷ [])))
    ∙ append_assoc (resumed ++ c.task_waiters) (t ∷ []) (arrivals es)
run-order c resumed (native_waits ∷ es) = run-order (enlist none c) resumed es
run-order c resumed (native_wakes observed ∷ es) =
    run-order (or_stay c (end_wait observed c)) resumed es
    ∙ ap (λ x. (resumed ++ x) ++ arrivals es) (end_wait-waiters observed c)
run-order c resumed (notifies_one ∷ es) =
    run-order (notify_one c).0 (resumed ++ (notify_one c).1) es
    ∙ ap (λ x. x ++ arrivals es)
        (append_assoc resumed (notify_one c).1 (notify_one c).0.task_waiters
          ∙ ap (resumed ++◌) (notify_one-order c.task_waiters c refl))
run-order c resumed (notifies_all ∷ es) =
    run-order (notify_all c).0 (resumed ++ (notify_all c).1) es
    ∙ ap (λ x. x ++ arrivals es) (append-nil (resumed ++ c.task_waiters))

end_wait-goes :
    (observed : ℕ) (c : Condition) → c.generation ≢ observed → end_wait observed c ≢ none
unfolding end_wait
end_wait-goes observed c h = elim (Bool-cases (c.generation == observed)) [
  | inl same ↦ absurd (h ((==_iff c.generation observed).0 same))
  | inr other ↦ ground (arith, other)
]

next-ne : (g : ℕ) → next_generation g ≢ g
next-ne g = omega arith

-- A thread outside the scheduler that waits does not go on by itself, and can go on behind
-- `notify_all`.
pub notify_all-native :
    (c : Condition)
    → 0 < c.native_waiters
    → (end_wait c.generation c ≡ none) × (end_wait c.generation (notify_all c).0 ≢ none)
unfolding end_wait notify_all
notify_all-native c h = (
  ground arith,
  end_wait-goes c.generation (notify_all c).0 (ground (arith, next-ne c.generation, h)),
)
