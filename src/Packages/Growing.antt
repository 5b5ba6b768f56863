-- ===== src/Packages/Growing.antt =====
-- Absolute-Compiler/src/package_manager.cpp: lockfiles that grow, and what backs their versions.
use absolute.Prelude.{
  ◌≡◌, ◌≢◌, refl, sym, ◌∙◌, Bool, true, false, ◌⊎◌, inl, inr, List, [], ◌∷◌, Option, none, some,
  Result, ok, err, Bool-cases,
}
use mathlib.Core.Path.{subst}
use absolute.Packages.Versions.{VersionError, satisfies}
use absolute.Packages.Texts.{
  Text, StringMap, text_eq, find, contains, text_eq→eq, find-assign_other,
}
use absolute.Packages.Manifests.{
  FileSystem, PackageError, PackageManifest, PackageLockfile, load_manifest,
}
use absolute.Packages.{Resolution, require, recorded, Visit}

-- Each constraint is met by the version that the lockfile has for the package.
abbrev pub Meets : PackageLockfile → Text → Text → Type 0
Meets lock name constraint =
    (version : Text) × (find name lock.resolved_versions ≡ some version)
    × (satisfies version constraint ≡ ok true)

abbrev pub MeetsAll : PackageLockfile → StringMap → Type 0
MeetsAll lock [] = Unit
MeetsAll lock ((name, constraint) ∷ deps) = Meets lock name constraint × MeetsAll lock deps

-- What had a version keeps it and its path.
abbrev pub Extends : PackageLockfile → PackageLockfile → Type 0
Extends old new =
    (name version : Text)
    → find name old.resolved_versions ≡ some version
    → (find name new.resolved_versions ≡ some version)
      × (find name new.resolved_paths ≡ find name old.resolved_paths)

pub require-true :
    (e : PackageError) (t : Result VersionError Bool) (u : Unit) → require e t ≡ ok u → t ≡ ok true
require-true e (err failure) u h = cc
require-true e (ok true) u h = refl
require-true e (ok false) u h = cc

pub recorded-Extends :
    (name version path : Text) (lock : PackageLockfile)
    → find name lock.resolved_versions ≡ none
    → Extends lock (recorded name version path lock)
unfolding recorded
recorded-Extends name version path lock n other v f = elim (Bool-cases (text_eq other name)) [
  | inl same ↦
      let e = text_eq→eq other name same in
      absurd (none_some (sym n ∙ subst (λ x. find x lock.resolved_versions ≡ some v) e f))
  | inr apart ↦ (
    find-assign_other other name version lock.resolved_versions apart ∙ f,
    find-assign_other other name path lock.resolved_paths apart,
  )
]
  where
    none_some : {x : Text} → ◌≢◌ {A = Option Text} none (some x)
    none_some h = cc

pub MeetsAll-Extends :
    (deps : StringMap) (old new : PackageLockfile)
    → Extends old new
    → MeetsAll old deps
    → MeetsAll new deps
MeetsAll-Extends [] old new x h = tt
MeetsAll-Extends ((name, constraint) ∷ deps) old new x ((v, f, s), h) =
    ((v, (x name v f).0, s), MeetsAll-Extends deps old new x h)

pub contains-cons :
    (k j : Text) (js : List Text) → contains k (j ∷ js) ≡ false → contains k js ≡ false
unfolding contains
contains-cons k j js h = elim (Bool-cases (text_eq k j)) [
  | inl same ↦ absurd (true_false (sym (rw (same, contains) refl) ∙ h))
  | inr other ↦ sym (rw (other, contains) refl) ∙ h
]
  where
    true_false : true ≢ false
    true_false h = cc

module _ (files : FileSystem) where
  open files use {FilePath, string_of}

  -- The version and the path are of a manifest that was loaded, whose own constraints are met and
  -- whose name is none of the active ones.
  abbrev pub Loaded : List Text → PackageLockfile → Text → Text → Type 0
  Loaded active lock name version =
      (path : FilePath) × (m : PackageManifest FilePath) × (find name lock.resolved_paths
        ≡ some (string_of path))
      × (load_manifest files path ≡ ok m)
      × (m.version ≡ version)
      × MeetsAll lock m.dependencies
      × (contains m.name active ≡ false)

  abbrev pub Backed : List Text → PackageLockfile → PackageLockfile → Type 0
  Backed active old new =
      (name version : Text)
      → find name new.resolved_versions ≡ some version
      → (find name old.resolved_versions ≡ some version) ⊎ Loaded active new name version

  abbrev pub Grown : Resolution → Resolution → Type 0
  Grown st next =
      (next.active_stack ≡ st.active_stack)
      × Extends st.lockfile next.lockfile
      × Backed st.active_stack st.lockfile next.lockfile

  abbrev pub Visited : PackageManifest FilePath → Resolution → Resolution → Type 0
  Visited m st next =
      (contains m.name st.active_stack ≡ false)
      × (next.active_stack ≡ st.active_stack)
      × Extends st.lockfile next.lockfile
      × Backed (m.name ∷ st.active_stack) st.lockfile next.lockfile
      × MeetsAll next.lockfile m.dependencies

  abbrev pub Sound : Visit files → Type 0
  Sound visit =
      (m : PackageManifest FilePath) (st next : Resolution)
      → visit m st ≡ ok next
      → Visited m st next

  pub Loaded-weaker :
      (a : Text) (active : List Text) (lock : PackageLockfile) (name version : Text)
      → Loaded (a ∷ active) lock name version
      → Loaded active lock name version
  Loaded-weaker a active lock name version (p, m, f, l, v, all, n) =
      (p, m, f, l, v, all, contains-cons m.name a active n)

  pub Loaded-Extends :
      (active : List Text) (old new : PackageLockfile) (name version : Text)
      → Extends old new
      → find name old.resolved_versions ≡ some version
      → Loaded active old name version
      → Loaded active new name version
  Loaded-Extends active old new name version x there (p, m, f, l, v, all, n) =
      (p, m, (x name version there).1 ∙ f, l, v, MeetsAll-Extends m.dependencies old new x all, n)

  -- One state after the other.
  pub Grown-trans : (a b c : Resolution) → Grown a b → Grown b c → Grown a c
  Grown-trans a b c (s, x, k) (s', x', k') = (
    s' ∙ s,
    λ name version f.
        let (g, h) = x name version f in let (g', h') = x' name version g in (g', h' ∙ h),
    λ name version f. elim (k' name version f) [
      | inr loaded ↦ inr (subst (λ l. Loaded l c.lockfile name version) s loaded)
      | inl before ↦ elim (k name version before) [
        | inl first ↦ inl first
        | inr loaded ↦
            inr (Loaded-Extends a.active_stack b.lockfile c.lockfile name version x' before loaded)
      ]
    ],
  )

  pub Grown-refl : (st : Resolution) → Grown st st
  Grown-refl st = (refl, λ name version f. (f, refl), λ name version f. inl f)
