-- ===== src/Packages/Sorted.antt =====
-- Absolute-Compiler/src/package_manager.cpp: the maps of a lockfile stay in the order of their keys,
-- and what is resolved, saved and loaded again is what was resolved.
use absolute.Prelude.{
  ℕ, zero, suc, ◌≡◌, refl, sym, ◌∙◌, true, inl, inr, List, [], ◌∷◌, Option, none, some, ok,
  >>=-eq-ok, ok-injective, ok_err, Bool-cases, arith,
}
use mathlib.Core.Path.{subst}
use absolute.Prelude.Texts.{Text}
use absolute.Json.Tree.{key_less}
use absolute.Packages.Versions.{satisfies}
use absolute.Packages.Texts.{StringMap, find, assign, contains, assign-cases}
use absolute.Packages.Manifests.{
  FileSystem, cyclic, unsatisfied, conflict, PackageManifest, PackageLockfile, load_manifest,
}
use absolute.Packages.{
  Resolution, require, recorded, Visit, locate, record_or_compare, resolve_one, resolve_all,
  entered, left, resolve_recursive,
}
use absolute.Packages.LockMaps.{Above, IsSorted}

key_less_trans : (i j k : Text) → key_less i j ≡ true → key_less j k ≡ true → key_less i k ≡ true
unfolding key_less
key_less_trans [] [] k h g = cc
key_less_trans [] (d ∷ ds) [] h g = cc
key_less_trans [] (d ∷ ds) (e ∷ es) h g = refl
key_less_trans (c ∷ cs) [] k h g = cc
key_less_trans (c ∷ cs) (d ∷ ds) [] h g = cc
key_less_trans (c ∷ cs) (d ∷ ds) (e ∷ es) h g = ground (arith, h, g, key_less_trans cs ds es)

Above-trans : (j k : Text) (m : StringMap) → key_less j k ≡ true → Above k m → Above j m
Above-trans j k [] h a = tt
Above-trans j k ((i, v) ∷ m) h (l, a) = (key_less_trans j k i h l, Above-trans j k m h a)

Above-assign :
    (j k v : Text) (m : StringMap) → key_less j k ≡ true → Above j m → Above j (assign k v m)
unfolding assign
Above-assign j k v [] h a = (h, tt)
Above-assign j k v ((i, w) ∷ m) h (l, a) = elim (assign-cases k v i w m) [
  | inl front ↦ rw front (h, (l, a))
  | inr (inl (_, _, later)) ↦ rw later (l, Above-assign j k v m h a)
  | inr (inr (same, there)) ↦ rw there (l, a)
]

pub assign-IsSorted : (k v : Text) (m : StringMap) → IsSorted m → IsSorted (assign k v m)
unfolding assign
assign-IsSorted k v [] s = (tt, tt)
assign-IsSorted k v ((i, w) ∷ m) (a, s) = elim (Bool-cases (key_less k i)) [
  | inl less ↦ rw (less, assign) ((less, Above-trans k i m less a), (a, s))
  | inr not_less ↦ elim (Bool-cases (key_less i k)) [
    | inl more ↦ rw (not_less, more, assign) (Above-assign i k v m more a, assign-IsSorted k v m s)
    | inr not_more ↦ rw (not_less, not_more, assign) (a, s)
  ]
]

-- What recording keeps, resolution keeps.
module _ (files : FileSystem) (I : PackageLockfile → Type 0)
    (keeps : (name version path : Text) (lock : PackageLockfile)
      → I lock
      → I (recorded name version path lock)) where
  open files use {FilePath, string_of}

  abbrev Keeping : Visit files → Type 0
  Keeping visit =
      (m : PackageManifest FilePath) (st next : Resolution)
      → I st.lockfile
      → visit m st ≡ ok next
      → I next.lockfile

  module _ (visit : Visit files) (kept : Keeping visit) (registries : List FilePath) where
    compare-keeps :
        (requester name constraint : Text) (path : FilePath) (m : PackageManifest FilePath)
        (o : Option Text) (st next : Resolution)
        → I st.lockfile
        → record_or_compare files visit requester name constraint path m o st ≡ ok next
        → I next.lockfile
    unfolding record_or_compare
    compare-keeps requester name constraint path m none st next i h =
        kept m (record st { lockfile = recorded name m.version (string_of path) st.lockfile }) next
          (keeps name m.version (string_of path) st.lockfile i) h
    compare-keeps requester name constraint path m (some existing) st next i h =
        let test = satisfies existing constraint in
        let (u, _, h') =
          >>=-eq-ok (require (conflict name existing constraint requester) test) _ h in
        subst (λ z. I z.lockfile) (ok-injective h') i

    resolve_all-keeps :
        (requester : Text) (deps : StringMap) (st next : Resolution)
        → I st.lockfile
        → resolve_all files visit registries requester deps st ≡ ok next
        → I next.lockfile
    unfolding resolve_all resolve_one
    resolve_all-keeps requester [] st next i h = subst (λ z. I z.lockfile) (ok-injective h) i
    resolve_all-keeps requester ((name, constraint) ∷ deps) st next i h =
        let one = resolve_one files visit registries requester name constraint st in
        let (mid, h1, later) = >>=-eq-ok one _ h in
        let (path, _, h2) = >>=-eq-ok (locate files registries name st.lockfile) _ h1 in
        let (m, _, h3) = >>=-eq-ok (load_manifest files path) _ h2 in
        let test = satisfies m.version constraint in
        let (u, _, h4) =
          >>=-eq-ok (require (unsatisfied name m.version constraint requester) test) _ h3 in
        let known = find name st.lockfile.resolved_versions in
        let first = compare-keeps requester name constraint path m known st mid i h4 in
        resolve_all-keeps requester deps mid next first later

  pub resolve-keeps :
      (fuel : ℕ) (registries : List FilePath) → Keeping (resolve_recursive files fuel registries)
  unfolding resolve_recursive left
  resolve-keeps zero registries m st next i h = cc
  resolve-keeps (suc fuel) registries m st next i h =
      elim (Bool-cases (contains m.name st.active_stack)) [
        | inl there ↦
            absurd (ok_err {e = cyclic m.name} (sym h ∙ rw (there, resolve_recursive) refl))
        | inr apart ↦
            let visit = resolve_recursive files fuel registries in
            let all =
              resolve_all files visit registries m.name m.dependencies (entered files m.name st) in
            let (last, h1, h2) =
              >>=-eq-ok all (λ r. ok (left files m.name r))
                (sym (rw (apart, resolve_recursive) refl) ∙ h) in
            subst (λ z. I z.lockfile) (ok-injective h2)
              (resolve_all-keeps visit (resolve-keeps fuel registries) registries m.name
                m.dependencies (entered files m.name st) last i h1)
      ]
