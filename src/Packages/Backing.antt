-- ===== src/Packages/Backing.antt =====
-- Absolute-Compiler/src/package_manager.cpp: what `ResolveDependencies` has made sure of where it
-- throws no exception.
use absolute.Prelude.{
  ℕ, zero, suc, ◌≡◌, refl, sym, ap, ◌∙◌, true, inl, inr, List, [], ◌∷◌, Option, none, some, ok,
  >>=-eq-ok, ok-injective, ok_err, Bool-cases,
}
use mathlib.Core.Path.{subst}
use absolute.Packages.Versions.{satisfies}
use absolute.Packages.Texts.{
  Text, StringMap, text_eq, find, contains, erase, text_eq→eq, find-assign_same, find-assign_other,
  erase-cons_self,
}
use absolute.Packages.Manifests.{
  FileSystem, cyclic, unsatisfied, conflict, PackageManifest, PackageLockfile, load_manifest,
}
use absolute.Packages.{
  Resolution, require, recorded, Visit, locate, record_or_compare, resolve_one, resolve_all,
  entered, left, resolve_recursive, resolve_dependencies,
}
use absolute.Packages.Growing.{
  Meets, MeetsAll, Extends, require-true, recorded-Extends, Backed, Grown, Visited, Sound,
  Loaded-weaker, Grown-trans, Grown-refl,
}

module _ (files : FileSystem) where
  open files use {FilePath, string_of}

  module _ (visit : Visit files) (sound : Sound files visit) (registries : List FilePath) where
    -- A package that is recorded and then visited.
    record-Grown :
        (name constraint : Text) (path : FilePath) (m : PackageManifest FilePath)
        (st next : Resolution)
        → load_manifest files path ≡ ok m
        → satisfies m.version constraint ≡ ok true
        → find name st.lockfile.resolved_versions ≡ none
        → visit m (record st { lockfile = recorded name m.version (string_of path) st.lockfile })
          ≡ ok next
        → Grown files st next × Meets next.lockfile name constraint
    unfolding recorded
    record-Grown name constraint path m st next l s n h =
        let lock = recorded name m.version (string_of path) st.lockfile in
        let (apart, same, x, k, all) = sound m (record st { lockfile = lock }) next h in
        let (v, p) =
          x name m.version (find-assign_same name m.version st.lockfile.resolved_versions) in
        let place = p ∙ find-assign_same name (string_of path) st.lockfile.resolved_paths in
        let first = recorded-Extends name m.version (string_of path) st.lockfile n in
        (
          (
            same,
            λ other w f. let (g, e) = first other w f in let (g', e') = x other w g in (g', e' ∙ e),
            λ other w f. elim (k other w f) [
              | inr loaded ↦
                  inr (Loaded-weaker files m.name st.active_stack next.lockfile other w loaded)
              | inl before ↦ elim (Bool-cases (text_eq other name)) [
                | inl found ↦
                    let e = text_eq→eq other name found in
                    inr (
                      path,
                      m,
                      subst (λ z. find z next.lockfile.resolved_paths ≡ some (string_of path))
                          (sym e) place,
                      l,
                      some-injective (
                          sym v ∙ subst (λ z. find z next.lockfile.resolved_versions ≡ some w) e f),
                      all,
                      apart,
                    )
                | inr another ↦ inl (
                    sym
                      (find-assign_other other name m.version st.lockfile.resolved_versions another)
                    ∙ before)
              ]
            ],
          ),
          (m.version, v, s),
        )
      where
        some-injective : {a b : Text} → ◌≡◌ {A = Option Text} (some a) (some b) → a ≡ b
        some-injective h = cc

    compare-Grown :
        (requester name constraint : Text) (path : FilePath) (m : PackageManifest FilePath)
        (o : Option Text) (st next : Resolution)
        → load_manifest files path ≡ ok m
        → satisfies m.version constraint ≡ ok true
        → find name st.lockfile.resolved_versions ≡ o
        → record_or_compare files visit requester name constraint path m o st ≡ ok next
        → Grown files st next × Meets next.lockfile name constraint
    unfolding record_or_compare
    compare-Grown requester name constraint path m none st next l met e h =
        record-Grown name constraint path m st next l met e h
    compare-Grown requester name constraint path m (some existing) st next l met e h =
        let test = satisfies existing constraint in
        let (u, s, h') =
          >>=-eq-ok (require (conflict name existing constraint requester) test) _ h in
        subst (λ z. Grown files st z × Meets z.lockfile name constraint) (ok-injective h')
          (Grown-refl files st, (existing, e, require-true _ test u s))

    pub resolve_one-Grown :
        (requester name constraint : Text) (st next : Resolution)
        → resolve_one files visit registries requester name constraint st ≡ ok next
        → Grown files st next × Meets next.lockfile name constraint
    unfolding resolve_one
    resolve_one-Grown requester name constraint st next h =
        let (path, _, h1) = >>=-eq-ok (locate files registries name st.lockfile) _ h in
        let (m, l, h2) = >>=-eq-ok (load_manifest files path) _ h1 in
        let test = satisfies m.version constraint in
        let (u, s, h3) =
          >>=-eq-ok (require (unsatisfied name m.version constraint requester) test) _ h2 in
        compare-Grown requester name constraint path m (find name st.lockfile.resolved_versions) st
          next l (require-true _ test u s) refl h3

    resolve_all-Grown :
        (requester : Text) (deps : StringMap) (st next : Resolution)
        → resolve_all files visit registries requester deps st ≡ ok next
        → Grown files st next × MeetsAll next.lockfile deps
    unfolding resolve_all
    resolve_all-Grown requester [] st next h =
        subst (λ z. Grown files st z × Unit) (ok-injective h) (Grown-refl files st, tt)
    resolve_all-Grown requester ((name, constraint) ∷ deps) st next h =
        let (mid, h1, h2) =
          >>=-eq-ok (resolve_one files visit registries requester name constraint st) _ h in
        let (g, (v, f, s)) = resolve_one-Grown requester name constraint st mid h1 in
        let (g', all) = resolve_all-Grown requester deps mid next h2 in
        let (_, x, _) = g' in (Grown-trans files st mid next g g', ((v, (x name v f).0, s), all))

  -- `ResolveRecursive` calls itself for packages that it then is at.
  pub resolve-Sound :
      (fuel : ℕ) (registries : List FilePath)
      → Sound files (resolve_recursive files fuel registries)
  unfolding resolve_recursive left
  resolve-Sound zero registries m st next h = cc
  resolve-Sound (suc fuel) registries m st next h =
      elim (Bool-cases (contains m.name st.active_stack)) [
        | inl there ↦
            absurd (ok_err {e = cyclic m.name} (sym h ∙ rw (there, resolve_recursive) refl))
        | inr apart ↦
            let all =
              resolve_all files (resolve_recursive files fuel registries) registries m.name
                m.dependencies (entered files m.name st) in
            let (last, h1, h2) =
              >>=-eq-ok all (λ r. ok (left files m.name r))
                (sym (rw (apart, resolve_recursive) refl) ∙ h) in
            let ((same, x, k), met) =
              resolve_all-Grown (resolve_recursive files fuel registries)
                (resolve-Sound fuel registries) registries m.name m.dependencies
                (entered files m.name st) last h1 in
            let back = ap (erase m.name) same ∙ erase-cons_self m.name st.active_stack in
            subst (λ z. Visited files m st z) (ok-injective h2) (apart, back, x, k, met)
      ]

  -- Where `ResolveDependencies` throws no exception, each constraint of the package is met by the
  -- version that the lockfile has; a package that had a version in the lockfile before keeps it and its path, and each version that is
  -- new is that of a manifest loaded from the path that is new, whose own constraints are all met
  -- in the lockfile as well, and which does not have the name of the package itself.
  pub resolve_dependencies-Backed :
      (fuel : ℕ) (m : PackageManifest FilePath) (registries : List FilePath)
      (existing lock : PackageLockfile)
      → resolve_dependencies files fuel m registries existing ≡ ok lock
      → MeetsAll lock m.dependencies
        × Extends existing lock
        × Backed files (m.name ∷ []) existing lock
  unfolding resolve_dependencies
  resolve_dependencies-Backed fuel m registries existing lock h =
      let st : Resolution = record { lockfile = existing; active_stack = [] } in
      let (next, h1, h2) = >>=-eq-ok (resolve_recursive files fuel registries m st) _ h in
      let (_, _, x, k, met) = resolve-Sound fuel registries m st next h1 in
      subst
        (λ z.
          MeetsAll z m.dependencies × Extends existing z × Backed files (m.name ∷ []) existing z)
        (ok-injective h2) (met, x, k)
