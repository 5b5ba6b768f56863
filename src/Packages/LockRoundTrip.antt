-- ===== src/Packages/LockRoundTrip.antt =====
-- Absolute-Compiler/src/package_manager.cpp: `LoadLockfile` reads what `SaveLockfile` writes.
use absolute.Prelude.{
  ℕ, ◌≡◌, refl, sym, ap, ◌∙◌, true, false, ◌⊎◌, inl, inr, [], ◌∷◌, ◌++◌, Option, none, some, ok,
  ◌==◌, length, arith,
}
use absolute.Prelude.Texts.{Text}
use absolute.Json.Text.{strip_prefix}
use absolute.Packages.Texts.{StringMap}
use absolute.Packages.Documents.{
  skip_white, key_at, closed_by, pair_at, block_at, search, matches, captured, span_until,
  assign_all, json_object_map,
}
use absolute.Packages.Manifests.{
  quote, entry_line, map_lines, paths_key, versions_key, FileSystem, PackageLockfile, lockfile_text,
  load_lockfile, read_file_content,
}
use absolute.Packages.LockText.{Without, IsPlain, span_until-Without, strip_prefix-cases}
use absolute.Packages.LockMaps.{IsSorted, assign_all-sorted}
use absolute.Packages.LockSections.{
  IsText, AllTexts, last_line, plain-quotes, map_lines-append, map_lines-Without, matches-newline,
  matches-map_lines, length-map_lines, search-quiet, search-quote,
}

block_quiet :
    (key : Text) (c : ℕ) (cs : Text) → (c == b'"') ≡ false → block_at b'{' b'}' key (c ∷ cs) ≡ none
unfolding block_at key_at strip_prefix
block_quiet key c cs h = rw (h, block_at, key_at, strip_prefix) refl

-- A map between braces, behind its key.
block_at-section :
    (key : Text) (m : StringMap) (rest : Text)
    → AllTexts m
    → ((r : Text) → strip_prefix (b'"' ∷ (key ++ b'"' ∷ [])) (quote key r) ≡ some r)
    → block_at b'{' b'}' key
        (quote key (b':' ∷ b' ' ∷ b'{' ∷ b'\n' ∷ map_lines m (b' ' ∷ b' ' ∷ b'}' ∷ rest)))
      ≡ some (b'\n' ∷ map_lines m last_line, rest)
unfolding block_at key_at skip_white
block_at-section key m rest h self =
    let block = b'\n' ∷ map_lines m last_line in
    let span = span_until-Without b'}' block rest (refl, map_lines-Without m h) in
    let whole =
      ap (λ z. span_until b'}' (b'\n' ∷ z)) (sym (map_lines-append m last_line (b'}' ∷ rest))) in
    rw
      (
        self (b':' ∷ b' ' ∷ b'{' ∷ b'\n' ∷ map_lines m (b' ' ∷ b' ' ∷ b'}' ∷ rest)),
        block_at,
        key_at,
      )
      (ap closed_by (whole ∙ span))

-- What is found in a block is put together to the map.
map_of_block :
    (m : StringMap)
    → AllTexts m
    → IsSorted m
    → assign_all
        (matches pair_at (length (b'\n' ∷ map_lines m last_line)) (b'\n' ∷ map_lines m last_line))
        []
      ≡ m
map_of_block m h s =
    let fuel = length (b'\n' ∷ map_lines m last_line) in
    ap (λ z. assign_all z [])
      (matches-newline fuel (map_lines m last_line)
        ∙ matches-map_lines fuel m h (omega (arith, length-map_lines m last_line)))
    ∙ assign_all-sorted m s

-- The search for the paths passes an entry of the versions.
abbrev paths_at : Text → Option (Text × Text)
paths_at = block_at b'{' b'}' paths_key

paths_plain : Without b'"' paths_key
paths_plain = (refl, (refl, (refl, (refl, (refl, tt)))))

name-quiet :
    (name rest : Text) → IsPlain name → paths_at (quote name (b':' ∷ b' ' ∷ b'"' ∷ rest)) ≡ none
unfolding block_at key_at skip_white strip_prefix
name-quiet name rest h =
    elim (strip_prefix-cases paths_key name (b':' ∷ b' ' ∷ b'"' ∷ rest) paths_plain
      (plain-quotes name h)) [
        | inl e ↦ rw (block_at, key_at, e) refl
        | inr e ↦ rw (block_at, key_at, e) refl
      ]

-- What is behind the value of an entry: a comma, or the brace that ends the section.
abbrev AfterValue : Text → Type 0
AfterValue rest =
    ((z : Text) × (rest ≡ b',' ∷ z)) ⊎ ((z : Text) × (rest ≡ b'\n' ∷ b' ' ∷ b' ' ∷ b'}' ∷ z))

value-quiet :
    (val rest : Text)
    → IsPlain val
    → AfterValue rest
    → (paths_at (quote val rest) ≡ none) × (paths_at (b'"' ∷ rest) ≡ none)
unfolding block_at key_at skip_white strip_prefix
value-quiet val rest h (inl (z, q)) = rw q (
  elim (strip_prefix-cases paths_key val (b',' ∷ z) paths_plain (plain-quotes val h)) [
    | inl e ↦ rw (block_at, key_at, e) refl
    | inr e ↦ rw (block_at, key_at, e) refl
  ],
  refl,
)
value-quiet val rest h (inr (z, q)) = rw q (
  elim (strip_prefix-cases paths_key val (b'\n' ∷ b' ' ∷ b' ' ∷ b'}' ∷ z) paths_plain
      (plain-quotes val h)) [
        | inl e ↦ rw (block_at, key_at, e) refl
        | inr e ↦ rw (block_at, key_at, e) refl
      ],
  refl,
)

colon-quiet : (rest : Text) → paths_at (b'"' ∷ b':' ∷ rest) ≡ none
unfolding block_at key_at skip_white strip_prefix
colon-quiet rest = refl

pass : (s rest : Text) → Without b'"' s → search paths_at (s ++ rest) ≡ search paths_at rest
pass = search-quiet paths_at (block_quiet paths_key)

pass-entry :
    (k v rest : Text)
    → IsText k
    → IsText v
    → AfterValue rest
    → search paths_at (entry_line k v rest) ≡ search paths_at rest
pass-entry k v rest (h, _) (g, _) a =
    let (first, last) = value-quiet v rest g a in
    let passed = search-quote paths_at (block_quiet paths_key) in
    let spaces = b' ' ∷ b' ' ∷ b' ' ∷ b' ' ∷ [] in
    let between = b':' ∷ b' ' ∷ [] in
    pass spaces (quote k (between ++ quote v rest)) (refl, (refl, (refl, (refl, tt))))
    ∙ passed k (between ++ quote v rest) h (name-quiet k (v ++ b'"' ∷ rest) h)
        (colon-quiet (b' ' ∷ quote v rest))
    ∙ pass between (quote v rest) (refl, (refl, tt))
    ∙ passed v rest g first last

pass-lines :
    (m : StringMap) (rest : Text)
    → AllTexts m
    → search paths_at (map_lines m (b' ' ∷ b' ' ∷ b'}' ∷ rest))
      ≡ search paths_at (b' ' ∷ b' ' ∷ b'}' ∷ rest)
unfolding map_lines
pass-lines [] rest h = refl
pass-lines ((k, v) ∷ []) rest (h, g, _) =
    let end = b' ' ∷ b' ' ∷ b'}' ∷ rest in
    pass-entry k v (b'\n' ∷ end) h g (inr (rest, refl)) ∙ pass (b'\n' ∷ []) end (refl, tt)
pass-lines ((k, v) ∷ next ∷ m) rest (h, g, later) =
    let lines = map_lines (next ∷ m) (b' ' ∷ b' ' ∷ b'}' ∷ rest) in
    pass-entry k v (b',' ∷ b'\n' ∷ lines) h g (inl (b'\n' ∷ lines, refl))
    ∙ pass (b',' ∷ b'\n' ∷ []) lines (refl, (refl, tt))
    ∙ pass-lines (next ∷ m) rest later

-- A match at the position itself.
search-here :
    (find_at : Text → Option (Text × Text)) (c : ℕ) (cs : Text) (found : Text × Text)
    → find_at (c ∷ cs) ≡ some found
    → search find_at (c ∷ cs) ≡ some found
unfolding search
search-here find_at c cs found h = rw (h, search) refl

versions_self :
    (r : Text) → strip_prefix (b'"' ∷ (versions_key ++ b'"' ∷ [])) (quote versions_key r) ≡ some r
unfolding strip_prefix
versions_self r = refl

paths_self :
    (r : Text) → strip_prefix (b'"' ∷ (paths_key ++ b'"' ∷ [])) (quote paths_key r) ≡ some r
unfolding strip_prefix
paths_self r = refl

-- The text from the map of the paths on, and from that of the versions on.
abbrev paths_text : StringMap → Text
paths_text paths =
    quote paths_key (
      b':' ∷ b' ' ∷ b'{' ∷ b'\n' ∷ map_lines paths (b' ' ∷ b' ' ∷ b'}' ∷ b'\n' ∷ b'}' ∷ b'\n' ∷ []))

abbrev versions_text : StringMap → Text → Text
versions_text versions rest =
    quote versions_key (b':' ∷ b' ' ∷ b'{' ∷ b'\n' ∷ map_lines versions (b' ' ∷ b' ' ∷ b'}' ∷ rest))

abbrev before_paths : StringMap → Text
before_paths paths = b',' ∷ b'\n' ∷ b' ' ∷ b' ' ∷ paths_text paths

abbrev opening : Text
opening = b'{' ∷ b'\n' ∷ b' ' ∷ b' ' ∷ []

lockfile_text-parts :
    (lock : PackageLockfile)
    → lockfile_text lock
      ≡ opening ++ versions_text lock.resolved_versions (before_paths lock.resolved_paths)
unfolding lockfile_text
lockfile_text-parts lock = refl

versions-quiet : (r : Text) → paths_at (quote versions_key r) ≡ none
unfolding block_at key_at strip_prefix
versions-quiet r = refl

found-versions :
    (versions : StringMap) (rest : Text)
    → AllTexts versions
    → search (block_at b'{' b'}' versions_key) (opening ++ versions_text versions rest)
      ≡ some (b'\n' ∷ map_lines versions last_line, rest)
found-versions versions rest h =
    let find_at = block_at b'{' b'}' versions_key in
    search-quiet find_at (block_quiet versions_key) opening (versions_text versions rest)
      (refl, (refl, (refl, (refl, tt))))
    ∙ search-here find_at b'"' _ _ (block_at-section versions_key versions rest h versions_self)

found-paths :
    (versions paths : StringMap)
    → AllTexts versions
    → AllTexts paths
    → search paths_at (opening ++ versions_text versions (before_paths paths))
      ≡ some (b'\n' ∷ map_lines paths last_line, b'\n' ∷ b'}' ∷ b'\n' ∷ [])
found-paths versions paths h g =
    let rest = before_paths paths in
    let lines = map_lines versions (b' ' ∷ b' ' ∷ b'}' ∷ rest) in
    let head = b':' ∷ b' ' ∷ b'{' ∷ b'\n' ∷ [] in
    pass opening (versions_text versions rest) (refl, (refl, (refl, (refl, tt))))
    ∙ search-quote paths_at (block_quiet paths_key) versions_key (head ++ lines) versions_plain
        (versions-quiet (head ++ lines)) (colon-quiet (b' ' ∷ b'{' ∷ b'\n' ∷ lines))
    ∙ pass head lines (refl, (refl, (refl, (refl, tt))))
    ∙ pass-lines versions rest h
    ∙ pass (b' ' ∷ b' ' ∷ b'}' ∷ b',' ∷ b'\n' ∷ b' ' ∷ b' ' ∷ []) (paths_text paths)
        (refl, (refl, (refl, (refl, (refl, (refl, (refl, tt)))))))
    ∙ search-here paths_at b'"' _ _ (block_at-section paths_key paths _ g paths_self)
  where
    versions_plain : IsPlain versions_key
    versions_plain = (refl, (refl, (refl, (refl, (refl, (refl, (refl, (refl, tt))))))))

map-found :
    (document key rest : Text) (m : StringMap)
    → AllTexts m
    → IsSorted m
    → search (block_at b'{' b'}' key) document ≡ some (b'\n' ∷ map_lines m last_line, rest)
    → json_object_map document key ≡ m
unfolding json_object_map
map-found document key rest m h s f =
    ap (λ o. assign_all (matches pair_at (length (captured o)) (captured o)) []) f
    ∙ map_of_block m h s

record_parts :
    (lock : PackageLockfile) (versions paths : StringMap)
    → versions ≡ lock.resolved_versions
    → paths ≡ lock.resolved_paths
    → record { resolved_versions = versions; resolved_paths = paths } ≡ lock
record_parts lock versions paths e f = rw (e, f) refl

-- A lockfile is what `LoadLockfile` reads from a file that has the text that `SaveLockfile` writes for
-- it, where the keys of its two maps are in order and no name, version or path is empty or has a
-- quote or a closing brace.
pub load_lockfile-lockfile_text :
    (files : FileSystem) (path : files.FilePath) (lock : PackageLockfile)
    → files.exists path ≡ true
    → files.read path ≡ some (lockfile_text lock)
    → AllTexts lock.resolved_versions
    → AllTexts lock.resolved_paths
    → IsSorted lock.resolved_versions
    → IsSorted lock.resolved_paths
    → load_lockfile files path ≡ ok lock
unfolding load_lockfile read_file_content
load_lockfile-lockfile_text files path lock there text h g s r =
    let versions = lock.resolved_versions in
    let paths = lock.resolved_paths in
    let parts = lockfile_text-parts lock in
    let document = lockfile_text lock in
    let first = map-found document versions_key (before_paths paths) versions h s (
      ap (search (block_at b'{' b'}' versions_key)) parts
      ∙ found-versions versions (before_paths paths) h) in
    let second =
      map-found document paths_key _ paths g r
        (ap (search paths_at) parts ∙ found-paths versions paths h g) in
    rw (there, load_lockfile)
      (rw (text, read_file_content)
        (ap ok (
          record_parts lock (json_object_map document versions_key)
            (json_object_map document paths_key) first second)))
