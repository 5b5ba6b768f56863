-- ===== src/Packages/Order.antt =====
-- Absolute-Compiler/src/package_manager.cpp: `SemVer::Satisfies` against the order of versions.
use absolute.Prelude.{ℕ, ◌≤◌, ◌<◌, ◌≡◌, ◌⊎◌, Bool, true, ◌||◌, some, List, ◌∷◌, ◌==◌}
use absolute.Packages.Versions.{
  SemVer, Captures, version_match, is_digit, caret, tilde, at_least, at_most, exact, caret_of,
  tilde_of, at_least_of, at_most_of, exactly, Constraint,
}

-- The order of versions without their prerelease: by major, then minor, then patch.
abbrev pub Below : SemVer → SemVer → Type 0
Below v w =
    (v.major < w.major)
    ⊎ ((v.major ≡ w.major) × ((v.minor < w.minor) ⊎ ((v.minor ≡ w.minor) × (v.patch ≤ w.patch))))

-- The forms of a constraint that names a version.
pub data Operator : Type 0 where
  compatible patch_level from up_to same : Operator

abbrev pub written : Operator → List ℕ → List ℕ
written compatible t = b'^' ∷ t
written patch_level t = b'~' ∷ t
written from t = b'>' ∷ b'=' ∷ t
written up_to t = b'<' ∷ b'=' ∷ t
written same t = t

-- What a version `v` has to be for a constraint that names `t`.
abbrev pub Meets : Operator → SemVer → SemVer → Type 0
Meets compatible v t = (v.major ≡ t.major) × Below t v
Meets patch_level v t = (v.major ≡ t.major) × (v.minor ≡ t.minor) × Below t v
Meets from v t = Below t v
Meets up_to v t = Below v t
Meets same v t = Below t v × Below v t

abbrev test_of : Operator → SemVer → SemVer → Bool
test_of compatible = caret
test_of patch_level = tilde
test_of from = at_least
test_of up_to = at_most
test_of same = exact

-- A text that a version begins with.
abbrev pub IsStart : ℕ → Type 0
IsStart c = (is_digit c || (c == b'v')) ≡ true

-- A text that the regular expression of `Parse` matches; `Parse` reads any other as 0.0.0.
abbrev pub IsVersion : List ℕ → Type 0
IsVersion text = (m : Captures) × (version_match text ≡ some m)

abbrev at_operator : Operator → List ℕ → Constraint
at_operator compatible = caret_of
at_operator patch_level = tilde_of
at_operator from = at_least_of
at_operator up_to = at_most_of
at_operator same = exactly
