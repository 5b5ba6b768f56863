-- ===== src/Scheduler/Priority.antt =====
-- `ChoosePriorityLocked` of Absolute-Runtime/src/tasks.cpp, by which a worker chooses among its seven
-- priorities: each that has tasks earns its weight in credits, and the one with the most pays for all.
pub mod Scan
pub mod Share
use absolute.Prelude.{
  ℕ, zero, suc, ◌+◌, Bool, true, false, ◌&&◌, ◌||◌, List, [], ◌∷◌, Option, none, some, ltb, ◌==◌,
  if◌then◌else◌,
}
use absolute.Prelude.Int.{ℤ, pos, negsuc, ◌+ℤ◌, ◌-ℤ◌, ltb_ℤ}

abbrev pub priority_weights : List ℕ
priority_weights = 1 ∷ 2 ∷ 3 ∷ 4 ∷ 6 ∷ 8 ∷ 12 ∷ []

-- `isActive` of each priority, of the counts of one set of lanes or of two.
unfoldable pub active : List ℕ → Option (List ℕ) → List Bool
active [] second = []
active (n ∷ ns) none = ltb 0 n ∷ active ns none
active (n ∷ ns) (some []) = ltb 0 n ∷ active ns (some [])
active (n ∷ ns) (some (m ∷ ms)) = (ltb 0 n || ltb 0 m) ∷ active ns (some ms)

abbrev pub same_credit : ℤ → ℤ → Bool
same_credit (pos m) (pos n) = m == n
same_credit (negsuc m) (negsuc n) = m == n
same_credit _ _ = false

-- `bestCredit` and `selected`, `none` where `selected` is -1.
abbrev pub Best : Type 0
Best = Option (ℤ × ℕ)

unfoldable pub better : ℤ → ℕ → Best → Best
better credit index none = some (credit, index)
better credit index (some (best, selected)) =
    if ltb_ℤ best credit || (same_credit credit best && ltb selected index)
    then some (credit, index)
    else some (best, selected)

-- The loop, from an index on: the new credits, the weight of those that are active, and the best.
unfoldable pub scan : ℕ → Best → List ℕ → List Bool → List ℤ → List ℤ × ℕ × Best
unfolding ◌+ℤ◌ better
scan index best (w ∷ ws) (false ∷ flags) (c ∷ cs) =
    let (credits, weight, last) = scan (suc index) best ws flags cs in
    (pos 0 ∷ credits, weight, last)
scan index best (w ∷ ws) (true ∷ flags) (c ∷ cs) =
    let credit = c +ℤ pos w in
    let (credits, weight, last) = scan (suc index) (better credit index best) ws flags cs in
    (credit ∷ credits, w + weight, last)
scan index best _ _ _ = ([], 0, best)

-- `credits[selected] -= activeWeight`
unfoldable pub spend_at : ℕ → ℕ → List ℤ → List ℤ
unfolding ◌-ℤ◌
spend_at selected weight [] = []
spend_at zero weight (c ∷ cs) = (c -ℤ pos weight) ∷ cs
spend_at (suc selected) weight (c ∷ cs) = c ∷ spend_at selected weight cs

abbrev pub settle : List ℤ × ℕ × Best → List ℤ × Option ℕ
settle (credits, weight, none) = (credits, none)
settle (credits, weight, some (credit, selected)) =
    (spend_at selected weight credits, some selected)

-- With any weights, and what is active.
unfoldable pub choose : List ℕ → List Bool → List ℤ → List ℤ × Option ℕ
unfolding scan spend_at
choose weights flags credits = settle (scan 0 none weights flags credits)

-- `ChoosePriorityLocked`
unfoldable pub choose_priority :
    (credits : List ℤ) (first : List ℕ) (second : Option (List ℕ)) → List ℤ × Option ℕ
unfolding active choose
choose_priority credits first second = choose priority_weights (active first second) credits
