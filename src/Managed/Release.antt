-- ===== src/Managed/Release.antt =====
-- The deleter calls of Managed: each object is released once.
use absolute.Prelude.{
  ℕ, ◌≡◌, ◌≢◌, ◌⊎◌, ◌∷◌, inl, inr, arith, Bool-cases, Option-cases, ◌==◌, if◌then◌else◌,
}
use absolute.Managed.Slots.{Table, default_deleter, find, handle_id}
use absolute.Managed.Invariant.{Inv}
use absolute.Managed.Operations.{find-Found}
use absolute.Managed.Refinement.{IsHandle, get-destroy, find-none-get, find-some-get}
use absolute.Managed.{destroy_slot, destroy, get}

-- The deleter of the slot that a handle names.
unfoldable pub deleter_of : Table → ℕ → ℕ
deleter_of t h = let d = (t.cells (handle_id h)).deleter in if d == 0 then default_deleter else d

destroy_dead : (t : Table) (h : ℕ) → get t h ≡ 0 → destroy t h ≡ t
unfolding destroy destroy_slot
destroy_dead t h dead = elim (Option-cases (find t h)) [
  | inl e ↦ rw (e, destroy)
  | inr (s, e) ↦ rw (e, destroy) (ground (arith, find-some-get t h s e))
]

destroy_live :
    (t : Table) (h : ℕ)
    → get t h ≢ 0
    → (destroy t h).released ≡ (deleter_of t h, get t h) ∷ t.released
unfolding destroy destroy_slot deleter_of
destroy_live t h live = elim (Option-cases (find t h)) [
  | inl e ↦ absurd (live (find-none-get t h e))
  | inr (s, e) ↦
      let f = find-Found t h s e in
      rw (e, destroy) (ground (arith, find-some-get t h s e, f.is_slot))
]

-- Destroying a live handle calls the deleter of its slot once, on its object. Destroying the
-- same handle again, or a handle with no object, changes nothing and calls no deleter.
pub destroy_once :
    (t : Table) (h : ℕ)
    → Inv t
    → IsHandle h
    → ((get t h ≡ 0) × (destroy t h ≡ t)
        ⊎ (get t h ≢ 0) × ((destroy t h).released ≡ (deleter_of t h, get t h) ∷ t.released))
      × (destroy (destroy t h) h ≡ destroy t h)
destroy_once t h v a = (
  elim (Bool-cases (get t h == 0)) [
    | inl dead ↦ inl (ground arith, destroy_dead t h (ground arith))
    | inr live ↦ let held : get t h ≢ 0 = λ e. ground arith in inr (held, destroy_live t h held)
  ],
  destroy_dead (destroy t h) h (rw (get-destroy t h h v a a) (ground arith)),
)
