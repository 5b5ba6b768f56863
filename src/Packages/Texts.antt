-- ===== src/Packages/Texts.antt =====
-- `std::map<std::string, std::string>`, as the list of its pairs in the order of the keys, and sets
-- of texts, for Absolute-Compiler/src/package_manager.cpp.
use absolute.Prelude.{
  ◌≡◌, refl, sym, ◌∙◌, Bool, true, false, ◌⊎◌, inl, inr, List, [], ◌∷◌, Option, none, some,
  Bool-cases, arith,
}
use mathlib.Core.Path.{subst}
unfoldable pub use absolute.Prelude.Texts.{text_eq}
pub use absolute.Prelude.Texts.{Text, text_eq_refl, text_eq→eq, text_eq_other}
use absolute.Json.Tree.{key_less}
use absolute.Json.Objects.{key_less-connected}

abbrev pub StringMap : Type 0
StringMap = List (Text × Text)

-- `map.find(k)`
unfoldable pub find : Text → StringMap → Option Text
unfolding text_eq
find k [] = none
find k ((j, v) ∷ m) = elim (text_eq k j) [ true ↦ some v | false ↦ find k m ]

-- `map[k] = v`
unfoldable pub assign : Text → Text → StringMap → StringMap
unfolding key_less
assign k v [] = (k, v) ∷ []
assign k v ((j, w) ∷ m) = elim (key_less k j) [
  | true ↦ (k, v) ∷ (j, w) ∷ m
  | false ↦ elim (key_less j k) [ true ↦ (j, w) ∷ assign k v m | false ↦ (j, v) ∷ m ]
]

-- `set.contains(k)`, and `set.erase(k)` of a set that has `k` at most once.
unfoldable pub contains : Text → List Text → Bool
unfolding text_eq
contains k [] = false
contains k (j ∷ js) = elim (text_eq k j) [ true ↦ true | false ↦ contains k js ]

unfoldable pub erase : Text → List Text → List Text
unfolding text_eq
erase k [] = []
erase k (j ∷ js) = elim (text_eq k j) [ true ↦ js | false ↦ j ∷ erase k js ]

find-head : (k v : Text) (m : StringMap) → find k ((k, v) ∷ m) ≡ some v
unfolding find
find-head k v m = rw (text_eq_refl k, find) refl

find-tail : (k j v : Text) (m : StringMap) → text_eq k j ≡ false → find k ((j, v) ∷ m) ≡ find k m
unfolding find
find-tail k j v m h = rw (h, find) refl

-- Where `assign` stops, and how it goes on.
pub assign-cases :
    (k v j w : Text) (m : StringMap)
    → (assign k v ((j, w) ∷ m) ≡ (k, v) ∷ (j, w) ∷ m)
      ⊎ ((key_less j k ≡ true)
          × (key_less k j ≡ false)
          × (assign k v ((j, w) ∷ m) ≡ (j, w) ∷ assign k v m))
      ⊎ ((k ≡ j) × (assign k v ((j, w) ∷ m) ≡ (j, v) ∷ m))
unfolding assign
assign-cases k v j w m = elim (Bool-cases (key_less k j)) [
  | inl less ↦ inl (rw (less, assign) refl)
  | inr not_less ↦ elim (Bool-cases (key_less j k)) [
    | inl more ↦ inr (inl (more, not_less, rw (not_less, more, assign) refl))
    | inr not_more ↦
        inr (inr (key_less-connected k j not_less not_more, rw (not_less, not_more, assign) refl))
  ]
]

less-other : (j k : Text) → key_less j k ≡ true → text_eq k j ≡ false
unfolding key_less text_eq
less-other [] [] h = cc
less-other [] (d ∷ ds) h = refl
less-other (c ∷ cs) [] h = cc
less-other (c ∷ cs) (d ∷ ds) h = ground (arith, h, less-other cs ds)

pub find-assign_same : (k v : Text) (m : StringMap) → find k (assign k v m) ≡ some v
unfolding assign
find-assign_same k v [] = find-head k v []
find-assign_same k v ((j, w) ∷ m) = elim (assign-cases k v j w m) [
  | inl front ↦ rw front (find-head k v ((j, w) ∷ m))
  | inr (inl (more, _, later)) ↦
      rw later (find-tail k j w (assign k v m) (less-other j k more) ∙ find-assign_same k v m)
  | inr (inr (same, there)) ↦ rw there (rw same (find-head j v m))
]

find-step :
    (i j w : Text) (m n : StringMap)
    → find i m ≡ find i n
    → find i ((j, w) ∷ m) ≡ find i ((j, w) ∷ n)
unfolding find
find-step i j w m n e = elim (Bool-cases (text_eq i j)) [
  | inl same ↦ rw (same, find) refl
  | inr other ↦ rw (other, find) e
]

pub find-assign_other :
    (i k v : Text) (m : StringMap) → text_eq i k ≡ false → find i (assign k v m) ≡ find i m
unfolding assign
find-assign_other i k v [] h = find-tail i k v [] h
find-assign_other i k v ((j, w) ∷ m) h = elim (assign-cases k v j w m) [
  | inl front ↦ rw front (find-tail i k v ((j, w) ∷ m) h)
  | inr (inl (_, _, later)) ↦
      rw later (find-step i j w (assign k v m) m (find-assign_other i k v m h))
  | inr (inr (same, there)) ↦
      let other = subst (λ x. text_eq i x ≡ false) same h in
      rw there (find-tail i j v m other ∙ sym (find-tail i j w m other))
]

pub erase-cons_self : (k : Text) (js : List Text) → erase k (k ∷ js) ≡ js
unfolding erase
erase-cons_self k js = rw (text_eq_refl k, erase) refl
