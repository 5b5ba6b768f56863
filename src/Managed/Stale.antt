-- ===== src/Managed/Stale.antt =====
-- How long an old handle of Managed is told from a new one: the 32-bit generations of a slot
-- come round again after 2 ^ 32 - 1 changes, and not before.
use absolute.Prelude.{
  ℕ, suc, ◌+◌, ◌-◌, ◌%◌, ◌≤◌, ◌<◌, ◌≡◌, refl, ◌∙◌, ◌≢◌, ◌⊎◌, inl, inr, Bool, true, List, [], ◌∷◌,
  ok, >>=-eq-ok, ok-injective, arith, Bool-cases, Option-cases, ◌==◌, if◌then◌else◌, length,
}
use absolute.Managed.Slots.{
  Slot, Table, default_deleter, update, handle_id, handle_generation, find, word,
}
use absolute.Managed.Invariant.{IsGeneration, Inv, grow-Grown}
use absolute.Managed.Operations.{
  find-Found, transfer-Transferred, checked-Inv, Call, creates, adopts, sets_type, destroys,
  transfers, step, run, step-Inv, run-Inv,
}
use absolute.Managed.Refinement.{look, get-look}
use absolute.Managed.{
  publish, grow, register_in, register, create, adopt_raw, set_type, next_generation, destroy_slot,
  destroy, transfer, get,
}

-- One call leaves a slot's generation, and then its object if it has one, or makes it the next.
abbrev Ages : Slot → Slot → Type 0
Ages s s' =
    ((s'.generation ≡ s.generation) × (s.pointer ≢ 0 → s'.pointer ≢ 0))
    ⊎ (s'.generation ≡ next_generation s.generation)

abbrev AllAge : Table → Table → Type 0
AllAge t u = (id : ℕ) → id < t.count → (id < u.count) × Ages (t.cells id) (u.cells id)

publish-AllAge :
    (t g : Table) (id allocation deleter : ℕ)
    → allocation ≢ 0
    → ((i : ℕ) → i < t.count → (i < g.count) × (g.cells i ≡ t.cells i))
    → AllAge t (publish g id allocation deleter).1
unfolding publish
publish-AllAge t g id allocation deleter a kept j h = ground (arith, kept j h)

register_in-AllAge :
    (t : Table) (free : List ℕ) (memory : Bool) (allocation deleter : ℕ) {r : ℕ × Table}
    → allocation ≢ 0
    → Inv t
    → register_in free t memory allocation deleter ≡ ok r
    → AllAge t r.1
unfolding register_in
register_in-AllAge t (id ∷ rest) memory allocation deleter {r} a v h =
    rw (← ok-injective h)
      (publish-AllAge t (record t { free = rest }) id allocation deleter a (λ i k. (k, refl)))
register_in-AllAge t [] memory allocation deleter {r} a v h =
    let (g, grown, made) = >>=-eq-ok (grow t memory) _ h in
    let w = grow-Grown t memory v grown in
    rw (← ok-injective made) (
      publish-AllAge t g t.count allocation deleter a
        (λ i k. (omega (arith, w.counted), w.kept i k)))

update-AllAge :
    (t : Table) (id : ℕ) (s : Slot)
    → Ages (t.cells id) s
    → AllAge t (record t { cells = update t.cells id s })
update-AllAge t id s a j h = ground arith

set_type-AllAge : (t : Table) (h type : ℕ) → AllAge t (set_type t h type)
unfolding set_type
set_type-AllAge t h type = elim (Option-cases (find t h)) [
  | inl e ↦ rw (e, set_type) (λ j k. (k, inl (refl, λ p. p)))
  | inr (s, e) ↦
      let f = find-Found t h s e in
      rw (e, set_type)
        (update-AllAge t (handle_id h) (record s { type = type })
          (rw f.is_slot (inl (refl, λ p. p))))
]

destroy_slot-AllAge : (t : Table) (id : ℕ) → AllAge t (destroy_slot t id (t.cells id))
unfolding destroy_slot
destroy_slot-AllAge t id j h = elim (Bool-cases ((t.cells id).pointer == 0)) [
  | inl empty ↦ rw empty (h, inl (refl, λ p. p))
  | inr live ↦ rw live (ground arith)
]

destroy-AllAge : (t : Table) (h : ℕ) → AllAge t (destroy t h)
unfolding destroy
destroy-AllAge t h = elim (Option-cases (find t h)) [
  | inl e ↦ rw (e, destroy) (λ j k. (k, inl (refl, λ p. p)))
  | inr (s, e) ↦
      let f = find-Found t h s e in
      rw (e, destroy, ← f.is_slot) (destroy_slot-AllAge t (handle_id h))
]

transfer-AllAge : (t : Table) (h : ℕ) {r : ℕ × Table} → transfer t h ≡ ok r → AllAge t r.1
transfer-AllAge t h e =
    let (s, w) = transfer-Transferred t h e in
    let f = find-Found t h s w.found in
    rw w.new_table (
      update-AllAge t (handle_id h) (record s { generation = next_generation s.generation })
        (rw f.is_slot (inr refl)))

allocate-AllAge :
    (t : Table) (memory : Bool) (allocation deleter : ℕ) {r : ℕ × Table}
    → allocation ≢ 0
    → Inv t
    → register (record t { leak_check = true }) memory allocation deleter ≡ ok r
    → AllAge t r.1
unfolding register
allocate-AllAge t memory allocation deleter a v =
    register_in-AllAge (record t { leak_check = true }) t.free memory allocation deleter a
      (checked-Inv t v)

create-AllAge :
    (t : Table) (memory : Bool) (allocation : ℕ) {r : ℕ × Table}
    → Inv t
    → create t memory allocation ≡ ok r
    → AllAge t r.1
unfolding create
create-AllAge t memory allocation v h = elim (Bool-cases (allocation == 0)) [
  | inl null ↦ absurd (ground arith)
  | inr given ↦ allocate-AllAge t memory allocation default_deleter (ground arith) v (rw given at h)
]

adopt_raw-AllAge :
    (t : Table) (memory : Bool) (pointer deleter : ℕ) {r : ℕ × Table}
    → Inv t
    → adopt_raw t memory pointer deleter ≡ ok r
    → AllAge t r.1
unfolding adopt_raw
adopt_raw-AllAge t memory pointer deleter v h = elim (Bool-cases (pointer == 0)) [
  | inl null ↦ rw (← ok-injective (rw null at h)) (λ j k. (k, inl (refl, λ p. p)))
  | inr given ↦
      allocate-AllAge t memory pointer (if deleter == 0 then default_deleter else deleter)
        (ground arith) v (rw given at h)
]

step-AllAge : (t : Table) (c : Call) {u : Table} → Inv t → step t c ≡ ok u → AllAge t u
unfolding step
step-AllAge t (creates memory allocation) v h =
    let (r, made, e) = >>=-eq-ok (create t memory allocation) _ h in
    rw (← ok-injective e) (create-AllAge t memory allocation v made)
step-AllAge t (adopts memory pointer deleter) v h =
    let (r, made, e) = >>=-eq-ok (adopt_raw t memory pointer deleter) _ h in
    rw (← ok-injective e) (adopt_raw-AllAge t memory pointer deleter v made)
step-AllAge t (sets_type handle type) v h = rw (← ok-injective h) (set_type-AllAge t handle type)
step-AllAge t (destroys handle) v h = rw (← ok-injective h) (destroy-AllAge t handle)
step-AllAge t (transfers handle) v h =
    let (r, made, e) = >>=-eq-ok (transfer t handle) _ h in
    rw (← ok-injective e) (transfer-AllAge t handle made)

-- `g` is reached from generation `e` by between 1 and `n` changes.
abbrev Aged : ℕ → ℕ → ℕ → Type 0
Aged n e g = (k : ℕ) × (0 < k) × (k ≤ n) × (g ≡ (e - 1 + k) % (word - 1) + 1)

Aged-next :
    (n e : ℕ) (s s' : Slot) → Ages s s' → Aged n e s.generation → Aged (n + 1) e s'.generation
Aged-next n e s s' (inl (same, _)) (k, a, b, c) = (k, a, omega arith, same ∙ c)
Aged-next n e s s' (inr next) (k, a, b, c) =
    (suc k, omega arith, omega arith, unfold next_generation in ground arith)

Aged-ne : (n e g : ℕ) → IsGeneration e → n < word - 1 → Aged n e g → g ≢ e
Aged-ne n e g h small (k, a, b, c) = λ same. omega arith

run-Aged :
    (cs : List Call) (t : Table) (id n e : ℕ) {u : Table}
    → Inv t
    → run t cs ≡ ok u
    → id < t.count
    → Aged n e (t.cells id).generation
    → Aged (n + length cs) e (u.cells id).generation
unfolding run
run-Aged [] t id n e v h k a =
    rw (← ok-injective h) (let (j, p, q, r) = a in (j, p, omega arith, r))
run-Aged (c ∷ cs) t id n e v h k a =
    let (w, made, later) = >>=-eq-ok (step t c) _ h in
    let (there, ages) = step-AllAge t c v made id k in
    let (j, p, q, r) =
      run-Aged cs w id (n + 1) e (step-Inv t c v made) later there
        (Aged-next n e (t.cells id) (w.cells id) ages a) in
    (j, p, omega arith, r)

look-live :
    (t : Table) (id g : ℕ)
    → look t id g ≢ 0
    → (id < t.count) × ((t.cells id).generation ≡ g) × ((t.cells id).pointer ≢ 0)
look-live t id g h = (ground arith, ground arith, ground arith)

-- When a live handle stops being valid, its slot has the next generation.
expires :
    (t u : Table) (id g : ℕ)
    → AllAge t u
    → IsGeneration g
    → look t id g ≢ 0
    → look u id g ≡ 0
    → Aged 1 g (u.cells id).generation
expires t u id g all h live dead =
    let (there, current, held) = look-live t id g live in
    let (room, ages) = all id there in
    elim ages [
      | inl (same, keeps) ↦ absurd (keeps held (ground arith))
      | inr next ↦ (1, omega arith, omega arith, next ∙ unfold next_generation in ground arith)
    ]

look-zero : (t : Table) (id g : ℕ) → (t.cells id).generation ≢ g → look t id g ≡ 0
look-zero t id g h = ground arith

-- Once a call has taken the object of a live handle away, the handle has none after any history
-- of fewer than 2 ^ 32 - 2 further calls, however often its slot is used again.
pub get-run_expired :
    (t : Table) (c : Call) (cs : List Call) (h : ℕ) {u w : Table}
    → Inv t
    → step t c ≡ ok u
    → run u cs ≡ ok w
    → get t h ≢ 0
    → get u h ≡ 0
    → length cs + 2 < word
    → get w h ≡ 0
get-run_expired t c cs h {u} {w} v first rest live dead few =
    let v' = step-Inv t c v first in
    let id = handle_id h in
    let g = handle_generation h in
    let all = step-AllAge t c v first in
    let live' = rw (get-look t h v) at live in
    let (there, current, held) = look-live t id g live' in
    let good = rw current at (v.generations id) in
    let aged = expires t u id g all good live' (rw (get-look u h v') at dead) in
    rw (get-look w h (run-Inv u cs v' rest)) (
      look-zero w id g (
        Aged-ne (1 + length cs) g (w.cells id).generation good (omega arith)
          (run-Aged cs u id 1 g v' rest (all id there).0 aged)))
