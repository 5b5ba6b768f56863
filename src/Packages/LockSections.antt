-- ===== src/Packages/LockSections.antt =====
-- Absolute-Compiler/src/package_manager.cpp: a section of a lockfile, as the patterns of
-- `JsonObjectMap` search it.
use absolute.Prelude.{
  ℕ, zero, suc, ◌≤◌, ◌≡◌, refl, ap, ◌∙◌, false, [], ◌∷◌, ◌++◌, Option, none, some, ◌==◌, length,
  length-append, arith,
}
use mathlib.Core.List.{append_assoc}
use absolute.Prelude.Texts.{Text}
use absolute.Packages.Texts.{StringMap}
use absolute.Packages.Documents.{pair_at, search, matches}
use absolute.Packages.Manifests.{quote, entry_line, map_lines}
use absolute.Packages.LockText.{Without, IsPlain, Without-append, pair_at-entry}

-- The texts of a map can be written between quotes and braces.
abbrev pub IsText : Text → Type 0
IsText s = IsPlain s × Without b'}' s

abbrev pub AllTexts : StringMap → Type 0
AllTexts [] = Unit
AllTexts ((k, v) ∷ m) = IsText k × IsText v × AllTexts m

-- What is behind the last entry.
abbrev pub last_line : Text
last_line = b' ' ∷ b' ' ∷ []

pub plain-quotes : (s : Text) → IsPlain s → Without b'"' s
plain-quotes [] h = tt
plain-quotes (c ∷ cs) h = h

quote-append : (s r t : Text) → quote s r ++ t ≡ quote s (r ++ t)
quote-append s r t = ap (◌∷◌ b'"') (append_assoc s (b'"' ∷ r) t)

entry_line-append : (k v r t : Text) → entry_line k v r ++ t ≡ entry_line k v (r ++ t)
entry_line-append k v r t =
    ap (λ z. b' ' ∷ b' ' ∷ b' ' ∷ b' ' ∷ z)
      (quote-append k (b':' ∷ b' ' ∷ quote v r) t
        ∙ ap (λ z. quote k (b':' ∷ b' ' ∷ z)) (quote-append v r t))

pub map_lines-append : (m : StringMap) (r t : Text) → map_lines m r ++ t ≡ map_lines m (r ++ t)
unfolding map_lines
map_lines-append [] r t = refl
map_lines-append ((k, v) ∷ []) r t = entry_line-append k v (b'\n' ∷ r) t
map_lines-append ((k, v) ∷ next ∷ m) r t =
    entry_line-append k v (b',' ∷ b'\n' ∷ map_lines (next ∷ m) r) t
    ∙ ap (λ z. entry_line k v (b',' ∷ b'\n' ∷ z)) (map_lines-append (next ∷ m) r t)

-- No brace is in the lines.
quote-Without : (s r : Text) → Without b'}' s → Without b'}' r → Without b'}' (quote s r)
quote-Without s r h k = (refl, Without-append b'}' s (b'"' ∷ r) h (refl, k))

entry_line-Without :
    (k v r : Text) → IsText k → IsText v → Without b'}' r → Without b'}' (entry_line k v r)
entry_line-Without k v r (_, h) (_, g) w = (
  refl,
  (
    refl,
    (
      refl,
      (refl, quote-Without k (b':' ∷ b' ' ∷ quote v r) h (refl, (refl, quote-Without v r g w))),
    ),
  ),
)

pub map_lines-Without : (m : StringMap) → AllTexts m → Without b'}' (map_lines m last_line)
unfolding map_lines
map_lines-Without [] h = (refl, (refl, tt))
map_lines-Without ((k, v) ∷ []) (h, g, _) =
    entry_line-Without k v (b'\n' ∷ last_line) h g (refl, (refl, (refl, tt)))
map_lines-Without ((k, v) ∷ next ∷ m) (h, g, later) =
    entry_line-Without k v (b',' ∷ b'\n' ∷ map_lines (next ∷ m) last_line) h g
      (refl, (refl, map_lines-Without (next ∷ m) later))

-- The iteration over the pairs finds the entries.
search-entry :
    (k v r : Text) → IsText k → IsText v → search pair_at (entry_line k v r) ≡ some ((k, v), r)
unfolding search pair_at
search-entry k v r (h, _) (g, _) = rw (pair_at-entry k v r h g, search) refl

matches-step :
    (fuel : ℕ) (k v r : Text)
    → IsText k
    → IsText v
    → matches pair_at (suc fuel) (entry_line k v r) ≡ (k, v) ∷ matches pair_at fuel r
unfolding matches
matches-step fuel k v r h g = rw (search-entry k v r h g, matches) refl

pub matches-newline :
    (fuel : ℕ) (s : Text) → matches pair_at fuel (b'\n' ∷ s) ≡ matches pair_at fuel s
unfolding matches search pair_at
matches-newline zero s = refl
matches-newline (suc fuel) s = refl

matches-comma : (fuel : ℕ) (s : Text) → matches pair_at fuel (b',' ∷ s) ≡ matches pair_at fuel s
unfolding matches search pair_at
matches-comma zero s = refl
matches-comma (suc fuel) s = refl

matches-last : (fuel : ℕ) → matches pair_at fuel last_line ≡ []
unfolding matches search pair_at
matches-last zero = refl
matches-last (suc fuel) = refl

pub matches-map_lines :
    (fuel : ℕ) (m : StringMap)
    → AllTexts m
    → length m ≤ fuel
    → matches pair_at fuel (map_lines m last_line) ≡ m
unfolding map_lines
matches-map_lines fuel [] h l = matches-last fuel
matches-map_lines zero (e ∷ m) h l = absurd (omega (arith, l))
matches-map_lines (suc fuel) ((k, v) ∷ []) (h, g, _) l =
    matches-step fuel k v (b'\n' ∷ last_line) h g
    ∙ ap (◌∷◌ (k, v)) (matches-newline fuel last_line ∙ matches-last fuel)
matches-map_lines (suc fuel) ((k, v) ∷ next ∷ m) (h, g, later) l =
    let rest = map_lines (next ∷ m) last_line in
    matches-step fuel k v (b',' ∷ b'\n' ∷ rest) h g
    ∙ ap (◌∷◌ (k, v)) (
        matches-comma fuel (b'\n' ∷ rest)
        ∙ matches-newline fuel rest
        ∙ matches-map_lines fuel (next ∷ m) later (omega (arith, l)))

length-entry_line : (k v r : Text) → suc (length r) ≤ length (entry_line k v r)
length-entry_line k v r =
    let outside = length-append k (b'"' ∷ b':' ∷ b' ' ∷ quote v r) in
    omega (arith, outside, length-append v (b'"' ∷ r))

pub length-map_lines : (m : StringMap) (r : Text) → length m ≤ length (map_lines m r)
unfolding map_lines
length-map_lines [] r = omega arith
length-map_lines ((k, v) ∷ []) r = omega arith
length-map_lines ((k, v) ∷ next ∷ m) r =
    let rest = map_lines (next ∷ m) r in
    omega (arith, length-map_lines (next ∷ m) r, length-entry_line k v (b',' ∷ b'\n' ∷ rest))

module _ (find_at : Text → Option (Text × Text))
    (quiet : (c : ℕ) (cs : Text) → (c == b'"') ≡ false → find_at (c ∷ cs) ≡ none) where
  -- The search goes on behind what has no quote.
  pub search-quiet :
      (s rest : Text) → Without b'"' s → search find_at (s ++ rest) ≡ search find_at rest
  unfolding search
  search-quiet [] rest h = refl
  search-quiet (c ∷ cs) rest (h, t) = rw (quiet c (cs ++ rest) h, search) (search-quiet cs rest t)

  search-none :
      (c : ℕ) (cs : Text) → find_at (c ∷ cs) ≡ none → search find_at (c ∷ cs) ≡ search find_at cs
  unfolding search
  search-none c cs h = rw (h, search) refl

  -- It goes on behind a text between quotes, where neither quote is the start of a match.
  pub search-quote :
      (s rest : Text)
      → IsPlain s
      → find_at (quote s rest) ≡ none
      → find_at (b'"' ∷ rest) ≡ none
      → search find_at (quote s rest) ≡ search find_at rest
  search-quote s rest h first last =
      search-none b'"' (s ++ b'"' ∷ rest) first
      ∙ search-quiet s (b'"' ∷ rest) (plain-quotes s h)
      ∙ search-none b'"' rest last
