-- ===== src/Managed/Allocation.antt =====
-- Allocation in Managed, seen as a map from handles to objects (Managed/Refinement).
use absolute.Prelude.{
  ℕ, ◌<◌, ◌≡◌, refl, ◌⊎◌, inl, inr, Bool, true, List, [], ◌∷◌, ok, >>=-eq-ok, ok-injective, arith,
  Bool-cases, ◌==◌, if◌then◌else◌,
}
use absolute.Managed.Slots.{Table, default_deleter, make_handle, handle_id, handle_generation, word}
use absolute.Managed.Invariant.{IsGeneration, Inv, Free, Grown, grow-Grown, registered-Inv}
use absolute.Managed.Operations.{checked-Inv}
use absolute.Managed.Refinement.{
  IsHandle, handle_id-make_handle, handle_generation-make_handle, look, get-look, same_handle,
  make_handle-IsHandle, look-publish,
}
use absolute.Managed.{publish, grow, register_in, register, create, get}

-- What a registration has to offer for `look-publish`.
record Offers (t g : Table) (id : ℕ) : Type 0 where
  kept : (i : ℕ) → i < g.count → (i ≡ id) ⊎ ((i < t.count) × (g.cells i ≡ t.cells i))
  more : (i : ℕ) → i < t.count → i < g.count
  there : id < g.count
  small : id < word
  generation : IsGeneration (g.cells id).generation
  empty : (x : ℕ) → look t id x ≡ 0

abbrev Adds : Table → ℕ → ℕ × Table → Type 0
Adds t allocation r =
    IsHandle r.0
    × (get t r.0 ≡ 0)
    × ((k : ℕ) → IsHandle k → get r.1 k ≡ (if r.0 == k then allocation else get t k))

publish-Adds :
    (t g : Table) (id allocation deleter : ℕ)
    → Inv t
    → Inv (publish g id allocation deleter).1
    → Offers t g id
    → Adds t allocation (publish g id allocation deleter)
unfolding publish
publish-Adds t g id allocation deleter v w o =
    let x = (g.cells id).generation in
    let new = make_handle-IsHandle id x o.small o.generation.1 in
    let same_id = handle_id-make_handle id x o.small in
    let same_generation = handle_generation-make_handle id x o.small o.generation.1 in
    (
      new,
      rw (get-look t (make_handle id x) v, same_id)
          (o.empty (handle_generation (make_handle id x))),
      λ k h.
          rw
            (
              get-look _ k w,
              get-look t k v,
              same_handle (make_handle id x) k new h,
              same_id,
              same_generation,
            )
            (look-publish t g id (handle_id k) (handle_generation k) allocation deleter o.kept
              o.more o.there (o.empty x) (o.empty (handle_generation k))),
    )

reuse-Offers :
    (t : Table) (id : ℕ) (rest : List ℕ)
    → Inv t
    → Free t.count t.cells (id ∷ rest)
    → Offers t (record t { free = rest }) id
reuse-Offers t id rest v f = record {
  kept = λ i h. inr (h, refl);
  more = λ i h. h;
  there = f.0;
  small = omega (arith, v.bounded, f.0);
  generation = v.generations id;
  empty = λ x. ground (arith, f.1);
}

extend-Offers : (t g : Table) → Inv t → Grown t g → Offers t g t.count
extend-Offers t g v w = record {
  kept = λ i h. ground (arith, w.kept i, w.counted);
  more = λ i h. omega (arith, w.counted);
  there = omega (arith, w.counted);
  small = omega (arith, w.room);
  generation = w.generations t.count;
  empty = λ x. ground arith;
}

register_in-Adds :
    (t : Table) (free : List ℕ) (memory : Bool) (allocation deleter : ℕ) {r : ℕ × Table}
    → t.free ≡ free
    → Inv t
    → Inv r.1
    → register_in free t memory allocation deleter ≡ ok r
    → Adds t allocation r
unfolding register_in
register_in-Adds t (id ∷ rest) memory allocation deleter {r} e v w h =
    let same = ok-injective h in
    rw (← same) (
      publish-Adds t _ id allocation deleter v (rw (← same) at w)
        (reuse-Offers t id rest v (rw e at v.unused)))
register_in-Adds t [] memory allocation deleter {r} e v w h =
    let (g, grown, made) = >>=-eq-ok (grow t memory) _ h in
    let same = ok-injective made in
    rw (← same) (
      publish-Adds t g t.count allocation deleter v (rw (← same) at w)
        (extend-Offers t g v (grow-Grown t memory v grown)))

-- An allocation that succeeds returns a 64-bit handle that had no object, gives it the new
-- object, and leaves every other handle alone.
pub create-Adds :
    (t : Table) (memory : Bool) (allocation k : ℕ) {r : ℕ × Table}
    → Inv t
    → IsHandle k
    → create t memory allocation ≡ ok r
    → IsHandle r.0 × (get t r.0 ≡ 0) × (get r.1 k ≡ (if r.0 == k then allocation else get t k))
unfolding create register
create-Adds t memory allocation k v small h = elim (Bool-cases (allocation == 0)) [
  | inl null ↦ absurd (ground arith)
  | inr given ↦
      let u = record t { leak_check = true } in
      let made = rw given at h in
      let w =
        registered-Inv u memory allocation default_deleter (ground arith) (checked-Inv t v) made in
      let same =
        register_in-Adds u t.free memory allocation default_deleter refl (checked-Inv t v) w made in
      unfold get in (same.0, same.1, same.2 k small)
]
