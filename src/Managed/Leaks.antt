-- ===== src/Managed/Leaks.antt =====
-- The leak check of Managed against the map from handles to objects.
use absolute.Prelude.{
  ℕ, zero, suc, ◌+◌, ◌≤◌, ◌<◌, ◌≡◌, refl, sym, ◌↔◌, ◌∙◌, inl, inr, ok, arith, Bool-cases, ◌==◌,
  if◌then◌else◌,
}
use absolute.Managed.Slots.{Table, word, make_handle, handle_id}
use absolute.Managed.Invariant.{Inv}
use absolute.Managed.Refinement.{get-look, handle_id-make_handle, handle_generation-make_handle}
use absolute.Managed.{leaks_below, check_leaks, get}

module _ (t : Table) (v : Inv t) where
  leak_here :
      (i : ℕ)
      → i < t.count
      → leaks_below t (suc i) ≡ (if (t.cells i).pointer == 0 then 0 else 1) + leaks_below t i
  unfolding leaks_below
  leak_here i h = ground (arith, v.backed i h, v.bounded)

  leaks-zero :
      (n : ℕ) → n ≤ t.count → leaks_below t n ≡ 0 → (i : ℕ) → i < n → (t.cells i).pointer ≡ 0
  leaks-zero zero h e i k = absurd (omega arith)
  leaks-zero (suc n) h e i k = elim (Bool-cases (i == n)) [
    | inl last ↦ ground (arith, leak_here n h)
    | inr below ↦ leaks-zero n (omega arith) (ground (arith, leak_here n h)) i (ground arith)
  ]

  zero-leaks :
      (n : ℕ) → n ≤ t.count → ((i : ℕ) → i < n → (t.cells i).pointer ≡ 0) → leaks_below t n ≡ 0
  zero-leaks zero h e = unfold leaks_below in refl
  zero-leaks (suc n) h e = ground (
    arith,
    leak_here n h,
    e n (omega arith),
    zero-leaks n (omega arith) (λ i k. e i (omega arith)),
  )

  check_leaks_passes : leaks_below t t.count ≡ 0 → check_leaks t ≡ ok t
  unfolding check_leaks
  check_leaks_passes e = ground arith

  passed-check_leaks : check_leaks t ≡ ok t → leaks_below t t.count ≡ 0
  unfolding check_leaks
  passed-check_leaks e = ground arith

  object_of :
      (id : ℕ)
      → id < t.count
      → get t (make_handle id (t.cells id).generation) ≡ (t.cells id).pointer
  object_of id h =
      let small : id < word = omega (arith, v.bounded) in
      let g = v.generations id in
      rw
        (
          get-look t _ v,
          handle_id-make_handle id (t.cells id).generation small,
          handle_generation-make_handle id (t.cells id).generation small g.1,
        )
        (ground arith)

  -- The leak check at exit passes exactly when no handle has an object any more.
  pub check_leaks_iff : (check_leaks t ≡ ok t) ↔ ((h : ℕ) → get t h ≡ 0)
  check_leaks_iff = (
    λ passed h. rw (get-look t h v) (
        ground (arith, leaks-zero t.count (omega arith) (passed-check_leaks passed) (handle_id h))),
    λ none_left. check_leaks_passes (
        zero-leaks t.count (omega arith)
          (λ i k. sym (object_of i k) ∙ none_left (make_handle i (t.cells i).generation))),
  )
