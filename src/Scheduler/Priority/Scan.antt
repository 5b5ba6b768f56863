-- ===== src/Scheduler/Priority/Scan.antt =====
-- What the loop of `ChoosePriorityLocked` finds.
use absolute.Prelude.{
  ℕ, zero, suc, ◌+◌, ◌≡◌, ◌⊎◌, inl, inr, refl, sym, ap, Bool, true, false, ◌&&◌, ◌||◌, List, [],
  ◌∷◌, none, some, ltb, arith, length, Bool-cases,
}
use absolute.Prelude.Int.{ℤ, pos, ◌+ℤ◌, ◌≤ℤ◌, ltb_ℤ}
use absolute.Scheduler.Priority.{same_credit, Best, better, scan}

-- The credits behind the loop, and the weight of the active ones.
unfoldable pub gained : List ℕ → List Bool → List ℤ → List ℤ
unfolding ◌+ℤ◌
gained (w ∷ ws) (false ∷ flags) (c ∷ cs) = pos 0 ∷ gained ws flags cs
gained (w ∷ ws) (true ∷ flags) (c ∷ cs) = (c +ℤ pos w) ∷ gained ws flags cs
gained _ _ _ = []

abbrev pub active_weight : List ℕ → List Bool → ℕ
active_weight (w ∷ ws) (false ∷ flags) = active_weight ws flags
active_weight (w ∷ ws) (true ∷ flags) = w + active_weight ws flags
active_weight _ _ = 0

-- The priority at an index is active and has the credit.
abbrev pub Chosen : ℕ → List Bool → List ℤ → ℤ → Type 0
Chosen zero (flag ∷ flags) (x ∷ cs) c = (flag ≡ true) × (x ≡ c)
Chosen (suc k) (flag ∷ flags) (x ∷ cs) c = Chosen k flags cs c
Chosen _ _ _ c = ⊥

-- No active priority has more.
abbrev pub Most : List Bool → List ℤ → ℤ → Type 0
Most (true ∷ flags) (x ∷ cs) c = (x ≤ℤ c) × Most flags cs c
Most (false ∷ flags) (x ∷ cs) c = Most flags cs c
Most _ _ c = Unit

abbrev pub NoneActive : List Bool → Type 0
NoneActive [] = Unit
NoneActive (flag ∷ flags) = (flag ≡ false) × NoneActive flags

abbrev pub NotLess : Best → ℤ → Type 0
NotLess none c = Unit
NotLess (some (x, j)) c = x ≤ℤ c

-- What is found is at an index from `index` on, or was found before; nothing is found where no
-- priority is active.
abbrev pub Found : ℕ → Best → List Bool → List ℤ → Best → Type 0
Found index before flags cs none = (before ≡ none) × NoneActive flags
Found index before flags cs (some (c, j)) =
    ((before ≡ some (c, j)) ⊎ ((k : ℕ) × (j ≡ index + k) × Chosen k flags cs c))
    × Most flags cs c
    × NotLess before c

pub scan-gained :
    (index : ℕ) (best : Best) (ws : List ℕ) (flags : List Bool) (cs : List ℤ)
    → length flags ≡ length ws
    → length cs ≡ length ws
    → ((scan index best ws flags cs).0 ≡ gained ws flags cs)
      × ((scan index best ws flags cs).1 ≡ active_weight ws flags)
unfolding scan gained
scan-gained index best [] flags cs h k = (refl, refl)
scan-gained index best (w ∷ ws) [] cs h k = ground (arith, h)
scan-gained index best (w ∷ ws) (flag ∷ flags) [] h k = ground (arith, k)
scan-gained index best (w ∷ ws) (false ∷ flags) (c ∷ cs) h k =
    let (p, q) = scan-gained (suc index) best ws flags cs (omega (arith, h)) (omega (arith, k)) in
    (ap (pos 0 ∷◌) p, q)
scan-gained index best (w ∷ ws) (true ∷ flags) (c ∷ cs) h k =
    let (p, q) =
      scan-gained (suc index) (better (c +ℤ pos w) index best) ws flags cs (omega (arith, h))
        (omega (arith, k)) in
    (ap ((c +ℤ pos w) ∷◌) p, ap (w +◌) q)

-- The better of two is one of them, and not less than either.
abbrev pub Better : ℤ → ℕ → Best → Best → Type 0
Better c index before none = ⊥
Better c index none (some (x, j)) = (x ≡ c) × (j ≡ index)
Better c index (some (y, i)) (some (x, j)) =
    (((x ≡ c) × (j ≡ index)) ⊎ ((x ≡ y) × (j ≡ i))) × (c ≤ℤ x) × (y ≤ℤ x)

better-Better : (c : ℤ) (index : ℕ) (before : Best) → Better c index before (better c index before)
unfolding better
better-Better c index none = (refl, refl)
better-Better c index (some (y, i)) =
    elim (Bool-cases (ltb_ℤ y c || (same_credit c y && ltb i index))) [
      | inl new ↦ rw new (inl (refl, refl), omega arith, least c y (ltb i index) new)
      | inr old ↦ rw old (inr (refl, refl), most c y (ltb i index) old, omega arith)
    ]
  where
    least : (c y : ℤ) (b : Bool) → (ltb_ℤ y c || (same_credit c y && b)) ≡ true → y ≤ℤ c
    least c y b h = ground arith

    most : (c y : ℤ) (b : Bool) → (ltb_ℤ y c || (same_credit c y && b)) ≡ false → c ≤ℤ y
    most c y b h = ground arith

Better-ge :
    (c x y : ℤ) (index j : ℕ) (before : Best)
    → Better c index before (some (x, j))
    → x ≤ℤ y
    → (c ≤ℤ y) × NotLess before y
Better-ge c x y index j none (e, f) h = (rw (sym e) h, tt)
Better-ge c x y index j (some (z, i)) (b, k, l) h = (omega arith, omega arith)

Better-from :
    (c x : ℤ) (index j : ℕ) (flags : List Bool) (cs : List ℤ) (before : Best)
    → Better c index before (some (x, j))
    → (before ≡ some (x, j)) ⊎ ((k : ℕ) × (j ≡ index + k) × Chosen k (true ∷ flags) (c ∷ cs) x)
Better-from c x index j flags cs none (e, f) = inr (0, omega (arith, f), (refl, sym e))
Better-from c x index j flags cs (some (z, i)) (inl (e, f), k, l) =
    inr (0, omega (arith, f), (refl, sym e))
Better-from c x index j flags cs (some (z, i)) (inr (e, f), k, l) = inl cc

-- A credit found further on, after one that was better than before.
Found-next :
    (index : ℕ) (c : ℤ) (before new last : Best) (flags : List Bool) (cs : List ℤ)
    → Better c index before new
    → Found (suc index) new flags cs last
    → Found index before (true ∷ flags) (c ∷ cs) last
Found-next index c before none last flags cs b f = absurd (no_none before b)
  where
    no_none : (before : Best) → Better c index before none → ⊥
    no_none none b = b
    no_none (some (z, i)) b = b
Found-next index c before (some (x, j)) none flags cs b (e, n) = ground (arith, e)
Found-next index c before (some (x, j)) (some (y, k)) flags cs b (inl e, m, n) =
    let same : (x ≡ y) × (j ≡ k) = (cc, cc) in
    let (p, q) = Better-ge c x y index j before b n in
    (rw (sym (same.0), sym (same.1)) (Better-from c x index j flags cs before b), (p, m), q)
Found-next index c before (some (x, j)) (some (y, k)) flags cs b (inr (i, e, g), m, n) =
    let (p, q) = Better-ge c x y index j before b n in (inr (suc i, omega (arith, e), g), (p, m), q)

pub scan-Found :
    (index : ℕ) (best : Best) (ws : List ℕ) (flags : List Bool) (cs : List ℤ)
    → length flags ≡ length ws
    → length cs ≡ length ws
    → Found index best flags (gained ws flags cs) (scan index best ws flags cs).2
unfolding scan gained
scan-Found index none [] [] [] h k = (refl, tt)
scan-Found index (some (c, j)) [] [] [] h k = (inl refl, tt, omega arith)
scan-Found index best (w ∷ ws) [] cs h k = ground (arith, h)
scan-Found index best (w ∷ ws) (flag ∷ flags) [] h k = ground (arith, k)
scan-Found index best [] (flag ∷ flags) cs h k = ground (arith, h)
scan-Found index best [] [] (c ∷ cs) h k = ground (arith, k)
scan-Found index best (w ∷ ws) (true ∷ flags) (c ∷ cs) h k =
    Found-next index (c +ℤ pos w) best (better (c +ℤ pos w) index best)
      (scan (suc index) (better (c +ℤ pos w) index best) ws flags cs).2 flags (gained ws flags cs)
      (better-Better (c +ℤ pos w) index best)
      (scan-Found (suc index) (better (c +ℤ pos w) index best) ws flags cs (omega (arith, h))
        (omega (arith, k)))
scan-Found index best (w ∷ ws) (false ∷ flags) (c ∷ cs) h k =
    found-later index best (scan (suc index) best ws flags cs).2 flags (gained ws flags cs)
      (scan-Found (suc index) best ws flags cs (omega (arith, h)) (omega (arith, k)))
  where
    found-later :
        (index : ℕ) (before last : Best) (flags : List Bool) (cs : List ℤ)
        → Found (suc index) before flags cs last
        → Found index before (false ∷ flags) (pos 0 ∷ cs) last
    found-later index before none flags cs (e, n) = (e, (refl, n))
    found-later index before (some (y, j)) flags cs (inl e, m, n) = (inl e, m, n)
    found-later index before (some (y, j)) flags cs (inr (i, e, f), m, n) =
        (inr (suc i, omega (arith, e), f), m, n)
