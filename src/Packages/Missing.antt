-- ===== src/Packages/Missing.antt =====
-- How many packages Absolute-Compiler/src/package_manager.cpp may still record.
use absolute.Prelude.{
  ℕ, suc, ◌≤◌, ◌<◌, ◌≡◌, refl, sym, ◌∙◌, true, inl, inr, List, [], ◌∷◌, Option, none, some,
  Bool-cases, Option-cases, length, arith,
}
use mathlib.Core.Path.{subst}
use absolute.Packages.Texts.{Text, StringMap, text_eq, find, contains, text_eq→eq}
use absolute.Packages.Manifests.{PackageLockfile}
use absolute.Packages.Growing.{Extends}

-- How many of the names have no version yet.
abbrev count_none : Option Text → ℕ → ℕ
count_none none n = suc n
count_none (some v) n = n

unfoldable pub missing : List Text → StringMap → ℕ
missing [] versions = 0
missing (n ∷ names) versions = count_none (find n versions) (missing names versions)

pub missing-length :
    (names : List Text) (versions : StringMap) → missing names versions ≤ length names
unfolding missing
missing-length [] versions = omega arith
missing-length (n ∷ names) versions = elim (Option-cases (find n versions)) [
  | inl e ↦ rw (e, missing) (omega (arith, missing-length names versions))
  | inr (v, e) ↦ rw (e, missing) (omega (arith, missing-length names versions))
]

-- What has a version still has one.
abbrev pub Keeps : StringMap → StringMap → Type 0
Keeps old new = (name v : Text) → find name old ≡ some v → (w : Text) × (find name new ≡ some w)

module _ (old new : StringMap) (keeps : Keeps old new) where
  pub missing_mono : (names : List Text) → missing names new ≤ missing names old
  unfolding missing
  missing_mono [] = omega arith
  missing_mono (n ∷ names) = elim (Option-cases (find n old)) [
    | inl e ↦ elim (Option-cases (find n new)) [
      | inl f ↦ rw (e, f, missing) (omega (arith, missing_mono names))
      | inr (w, f) ↦ rw (e, f, missing) (omega (arith, missing_mono names))
    ]
    | inr (v, e) ↦ let (w, f) = keeps n v e in rw (e, f, missing) (missing_mono names)
  ]

  -- A name that has its first version counts no more.
  pub missing_strict :
      (name v : Text) (names : List Text)
      → contains name names ≡ true
      → find name old ≡ none
      → find name new ≡ some v
      → missing names new < missing names old
  unfolding missing contains
  missing_strict name v [] h e f = cc
  missing_strict name v (n ∷ names) h e f = elim (Bool-cases (text_eq name n)) [
    | inl same ↦
        let e' = subst (λ x. find x old ≡ none) (text_eq→eq name n same) e in
        let f' = subst (λ x. find x new ≡ some v) (text_eq→eq name n same) f in
        rw (e', f', missing) (omega (arith, missing_mono names))
    | inr other ↦
        let later = missing_strict name v names (sym (rw (other, contains) refl) ∙ h) e f in
        elim (Option-cases (find n old)) [
          | inl g ↦ elim (Option-cases (find n new)) [
            | inl k ↦ rw (g, k, missing) (omega (arith, later))
            | inr (w, k) ↦ rw (g, k, missing) (omega (arith, later))
          ]
          | inr (u, g) ↦ let (w, k) = keeps n u g in rw (g, k, missing) later
        ]
  ]

pub Extends-Keeps :
    (old new : PackageLockfile)
    → Extends old new
    → Keeps old.resolved_versions new.resolved_versions
Extends-Keeps old new x name v f = (v, (x name v f).0)
