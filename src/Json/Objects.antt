-- ===== src/Json/Objects.antt =====
-- The C functions on objects of Absolute-Runtime/src/json.cpp.
use absolute.Prelude.{
  ℕ, ◌≡◌, refl, sym, ap, ap₂, ◌∙◌, Bool, true, false, ◌⊎◌, ◌||◌, inl, inr, List, [], ◌∷◌, some,
  ◌==◌, if◌then◌else◌, Bool-cases, arith, ==_iff,
}
use absolute.Json.Tree.{Value, object, Fields, end, field, key_less, insert}
use absolute.Json.Members.{key_less-asym}
use absolute.Json.{find, get_property, object_set}

key_less_irrefl : (k : List ℕ) → key_less k k ≡ false
unfolding key_less
key_less_irrefl [] = refl
key_less_irrefl (c ∷ cs) = ground (arith, key_less_irrefl cs)

key_less-cons_self : (c : ℕ) (cs ds : List ℕ) → key_less (c ∷ cs) (c ∷ ds) ≡ key_less cs ds
unfolding key_less
key_less-cons_self c cs ds = ground arith

or-false : (a b : Bool) → (a || b) ≡ false → (a ≡ false) × (b ≡ false)
or-false false false h = (refl, refl)
or-false false true h = cc
or-false true b h = cc

same-found : (k : List ℕ) → (key_less k k || key_less k k) ≡ false
same-found k = rw (key_less_irrefl k) refl

-- Keys of which none is less are equal.
pub key_less-connected : (j k : List ℕ) → key_less j k ≡ false → key_less k j ≡ false → j ≡ k
unfolding key_less
key_less-connected [] [] g h = refl
key_less-connected [] (d ∷ ds) g h = cc
key_less-connected (c ∷ cs) [] g h = cc
key_less-connected (c ∷ cs) (d ∷ ds) g h = elim (Bool-cases (c == d)) [
  | inl same ↦
      let e = (==_iff c d).0 same in
      ap₂ (◌∷◌) e (
        key_less-connected cs ds
          (sym (key_less-cons_self c cs ds) ∙ rw (ap (λ x. key_less (c ∷ cs) (x ∷ ds)) e) g)
          (sym (key_less-cons_self c ds cs) ∙ rw (ap (λ x. key_less (x ∷ ds) (c ∷ cs)) e) h))
  | inr other ↦ ground (arith, g, h, other)
]

module _ {D : Type 0} where
  find-found :
      (k j : List ℕ) (v : Value D) (fs : Fields D)
      → (key_less k j || key_less j k) ≡ false
      → find k (field j v fs) ≡ some v
  unfolding find
  find-found k j v fs h = rw (h, find) refl

  find-skip :
      (k j : List ℕ) (v : Value D) (fs : Fields D)
      → (key_less k j || key_less j k) ≡ true
      → find k (field j v fs) ≡ find k fs
  unfolding find
  find-skip k j v fs h = rw (h, find) refl

  -- Where `insert` stops, and how it goes on.
  insert-cases :
      (j i : List ℕ) (v w : Value D) (fs : Fields D)
      → (insert j v (field i w fs) ≡ field j v (field i w fs))
        ⊎ ((key_less i j ≡ true) × (insert j v (field i w fs) ≡ field i w (insert j v fs)))
        ⊎ ((i ≡ j) × (insert j v (field i w fs) ≡ field i v fs))
  unfolding insert
  insert-cases j i v w fs = elim (Bool-cases (key_less j i)) [
    | inl less ↦ inl (rw (less, insert) refl)
    | inr not_less ↦ elim (Bool-cases (key_less i j)) [
      | inl more ↦ inr (inl (more, rw (not_less, more, insert) refl))
      | inr not_more ↦
          inr (inr (key_less-connected i j not_more not_less, rw (not_less, not_more, insert) refl))
    ]
  ]

  find-insert_same : (k : List ℕ) (v : Value D) (fs : Fields D) → find k (insert k v fs) ≡ some v
  unfolding insert
  find-insert_same k v end = find-found k k v end (same-found k)
  find-insert_same k v (field j w fs) = elim (insert-cases k j v w fs) [
    | inl front ↦ rw front (find-found k k v (field j w fs) (same-found k))
    | inr (inl (more, later)) ↦ rw later (
        find-skip k j w (insert k v fs) (rw (key_less-asym j k more, more) refl)
        ∙ find-insert_same k v fs)
    | inr (inr (same, replaced)) ↦ rw (replaced, same) (find-found k k v fs (same-found k))
  ]

  find-insert_other :
      (k j : List ℕ) (v : Value D) (fs : Fields D)
      → (key_less k j || key_less j k) ≡ true
      → find k (insert j v fs) ≡ find k fs
  unfolding insert
  find-insert_other k j v end h = find-skip k j v end h
  find-insert_other k j v (field i w fs) h = elim (insert-cases j i v w fs) [
    | inl front ↦ rw front (find-skip k j v (field i w fs) h)
    | inr (inl (more, later)) ↦ elim (Bool-cases (key_less k i || key_less i k)) [
      | inl skip ↦ rw later (
          find-skip k i w (insert j v fs) skip
          ∙ find-insert_other k j v fs h
          ∙ sym (find-skip k i w fs skip))
      | inr found ↦
          rw later (find-found k i w (insert j v fs) found ∙ sym (find-found k i w fs found))
    ]
    | inr (inr (same, replaced)) ↦
        rw replaced (find-skip k i v fs (rw same h) ∙ sym (find-skip k i w fs (rw same h)))
  ]

  -- On an object, whatever its members and their order, `object_set` makes `get_property` give the
  -- new value for its key, that is for a key that the order of keys does not tell from it, and
  -- leaves what every other key gives.
  pub get_property-object_set :
      (fs : Fields D) (j k : List ℕ) (v : Value D)
      → get_property (object_set (some (object fs)) (some j) (some v)) (some k) ≡ (
          if key_less k j || key_less j k then get_property (some (object fs)) (some k) else some v)
  unfolding get_property object_set
  get_property-object_set fs j k v = elim (Bool-cases (key_less k j || key_less j k)) [
    | inl other ↦ rw other (find-insert_other k j v fs other)
    | inr same ↦
        let (below, above) = or-false (key_less k j) (key_less j k) same in
        rw (key_less-connected k j below above) (find-insert_same j v fs ∙ rw (same-found j) refl)
  ]
