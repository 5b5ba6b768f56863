-- ===== src/Managed/Operations.antt =====
-- The operations of Managed keep the invariant of Managed/Invariant, and so does every history
-- of calls.
use absolute.Prelude.{
  ℕ, ◌<◌, ◌≡◌, sym, ap, ◌≢◌, inl, inr, Bool, true, List, [], ◌∷◌, some, Result, ok, ◌>>=◌,
  >>=-eq-ok, arith, Option-cases, Bool-cases, ◌==◌, if◌then◌else◌,
}
use absolute.Managed.Slots.{
  Slot, Table, Abort, initial, default_deleter, make_handle, update, handle_id, handle_generation,
  find,
}
use absolute.Managed.Invariant.{
  Inv, initial-Inv, live-NotIn, Free-update-NotIn, generation-update, update_same-Inv,
  next_generation-IsGeneration, registered-Inv,
}
use absolute.Managed.{
  create, adopt_raw, set_type, next_generation, destroy_slot, destroy, transfer_slot, transfer,
}

-- What `find` has checked of the slot that it returns.
pub record Found (t : Table) (handle : ℕ) (s : Slot) : Type 0 where
  pub not_null : handle ≢ 0
  pub in_table : handle_id handle < t.count
  pub is_slot : t.cells (handle_id handle) ≡ s
  pub current : s.generation ≡ handle_generation handle

pub find-Found : (t : Table) (handle : ℕ) (s : Slot) → find t handle ≡ some s → Found t handle s
unfolding find
find-Found t handle s e = record {
  not_null = ground arith;
  in_table = ground arith;
  is_slot = ground arith;
  current = ground arith;
}

set_type-Inv : (t : Table) (handle type : ℕ) → Inv t → Inv (set_type t handle type)
unfolding set_type
set_type-Inv t handle type v = elim (Option-cases (find t handle)) [
  | inl e ↦ rw (e, set_type) v
  | inr (s, e) ↦
      rw (e, set_type)
        (let f = find-Found t handle s e in
          update_same-Inv t (handle_id handle) (record s { type = type })
            (ground (arith, f.is_slot))
            (ground (arith, f.is_slot, v.generations (handle_id handle))) v)
]

destroy_slot-Inv :
    (t : Table) (id : ℕ) (s : Slot)
    → id < t.count
    → t.cells id ≡ s
    → s.pointer ≢ 0
    → Inv t
    → Inv (record t {
      cells = update t.cells id (record {
        pointer = 0;
        generation = next_generation s.generation;
        type = 0;
        deleter = 0;
      });
      free = id ∷ t.free;
    })
destroy_slot-Inv t id s h e p v =
    let absent = live-NotIn t.count t.cells id t.free (rw e p) v.unused in
    record {
      bounded = v.bounded;
      backed = v.backed;
      generations =
          generation-update t.cells id _ v.generations (next_generation-IsGeneration s.generation);
      unused = (h, ground arith, Free-update-NotIn t.count t.cells id _ t.free absent v.unused);
      distinct = (absent, v.distinct);
      occupied = λ j k. ground (arith, v.occupied j k);
    }

-- `released` is a record of what was done, and no part of the invariant.
pub released-Inv : (t : Table) (calls : List (ℕ × ℕ)) → Inv t → Inv (record t { released = calls })
released-Inv t calls v = record {
  bounded = v.bounded;
  backed = v.backed;
  generations = v.generations;
  unused = v.unused;
  distinct = v.distinct;
  occupied = v.occupied;
}

pub checked-Inv : (t : Table) → Inv t → Inv (record t { leak_check = true })
checked-Inv t v = record {
  bounded = v.bounded;
  backed = v.backed;
  generations = v.generations;
  unused = v.unused;
  distinct = v.distinct;
  occupied = v.occupied;
}

destroyed-Inv :
    (t : Table) (id : ℕ) (s : Slot)
    → id < t.count
    → t.cells id ≡ s
    → Inv t
    → Inv (destroy_slot t id s)
unfolding destroy_slot
destroyed-Inv t id s h e v = elim (Bool-cases (s.pointer == 0)) [
  | inl none_left ↦ rw none_left v
  | inr live ↦ rw live (
      released-Inv _
        ((if s.deleter == 0 then default_deleter else s.deleter, s.pointer) ∷ t.released)
        (destroy_slot-Inv t id s h e (ground arith) v))
]

pub destroy-Inv : (t : Table) (handle : ℕ) → Inv t → Inv (destroy t handle)
unfolding destroy
destroy-Inv t handle v = elim (Option-cases (find t handle)) [
  | inl e ↦ rw (e, destroy) v
  | inr (s, e) ↦
      rw (e, destroy)
        (let f = find-Found t handle s e in
          destroyed-Inv t (handle_id handle) s f.in_table f.is_slot v)
]

-- What a transfer that succeeds has done.
pub record Transferred (t : Table) (handle : ℕ) (s : Slot) (r : ℕ × Table) : Type 0 where
  pub found : find t handle ≡ some s
  pub live : s.pointer ≢ 0
  pub new_handle : r.0 ≡ make_handle (handle_id handle) (next_generation s.generation)
  pub new_table : r.1 ≡ record t {
    cells =
        update t.cells (handle_id handle) (record s { generation = next_generation s.generation });
  }

pub transfer-Transferred :
    (t : Table) (handle : ℕ) {r : ℕ × Table}
    → transfer t handle ≡ ok r
    → (s : Slot) × Transferred t handle s r
unfolding transfer transfer_slot
transfer-Transferred t handle h = elim (Option-cases (find t handle)) [
  | inl e ↦ absurd (ground (arith, e))
  | inr (s, e) ↦ (
    s,
    record {
      found = e;
      live = ground (arith, e);
      new_handle = ground (arith, e);
      new_table = ground (arith, e);
    },
  )
]

pub transfer-Inv :
    (t : Table) (handle : ℕ) {r : ℕ × Table} → Inv t → transfer t handle ≡ ok r → Inv r.1
transfer-Inv t handle v h =
    let (s, w) = transfer-Transferred t handle h in
    let f = find-Found t handle s w.found in
    rw w.new_table (
      update_same-Inv t (handle_id handle) (record s { generation = next_generation s.generation })
        (ap (λ x. x.pointer) (sym f.is_slot)) (next_generation-IsGeneration s.generation) v)

pub create-Inv :
    (t : Table) (memory : Bool) (allocation : ℕ) {r : ℕ × Table}
    → Inv t
    → create t memory allocation ≡ ok r
    → Inv r.1
unfolding create
create-Inv t memory allocation v h = elim (Bool-cases (allocation == 0)) [
  | inl null ↦ absurd (ground arith)
  | inr given ↦
      registered-Inv (record t { leak_check = true }) memory allocation default_deleter
        (ground arith) (checked-Inv t v) (rw given at h)
]

pub adopt_raw-Inv :
    (t : Table) (memory : Bool) (pointer deleter : ℕ) {r : ℕ × Table}
    → Inv t
    → adopt_raw t memory pointer deleter ≡ ok r
    → Inv r.1
unfolding adopt_raw
adopt_raw-Inv t memory pointer deleter v h = elim (Bool-cases (pointer == 0)) [
  | inl null ↦ ground arith
  | inr given ↦
      registered-Inv (record t { leak_check = true }) memory pointer
        (if deleter == 0 then default_deleter else deleter) (ground arith) (checked-Inv t v)
        (rw given at h)
]

-- The calls that write to the table.
pub data Call : Type 0 where
  creates : Bool → ℕ → Call
  adopts : Bool → ℕ → ℕ → Call
  sets_type : ℕ → ℕ → Call
  destroys : ℕ → Call
  transfers : ℕ → Call

-- A call without the handle that it returns; an error is the end of the program.
unfoldable pub step : Table → Call → Result Abort Table
step t (creates memory allocation) = do r ← create t memory allocation; ok r.1
step t (adopts memory pointer deleter) = do r ← adopt_raw t memory pointer deleter; ok r.1
step t (sets_type handle type) = ok (set_type t handle type)
step t (destroys handle) = ok (destroy t handle)
step t (transfers handle) = do r ← transfer t handle; ok r.1

unfoldable pub run : Table → List Call → Result Abort Table
unfolding step
run t [] = ok t
run t (c ∷ cs) = do u ← step t c; run u cs

pub step-Inv : (t : Table) (c : Call) {u : Table} → Inv t → step t c ≡ ok u → Inv u
unfolding step
step-Inv t (creates memory allocation) v h =
    let (r, made, e) = >>=-eq-ok (create t memory allocation) _ h in
    ground (arith, create-Inv t memory allocation v made)
step-Inv t (adopts memory pointer deleter) v h =
    let (r, made, e) = >>=-eq-ok (adopt_raw t memory pointer deleter) _ h in
    ground (arith, adopt_raw-Inv t memory pointer deleter v made)
step-Inv t (sets_type handle type) v h = ground (arith, set_type-Inv t handle type v)
step-Inv t (destroys handle) v h = ground (arith, destroy-Inv t handle v)
step-Inv t (transfers handle) v h =
    let (r, made, e) = >>=-eq-ok (transfer t handle) _ h in
    ground (arith, transfer-Inv t handle v made)

pub run-Inv : (t : Table) (cs : List Call) {u : Table} → Inv t → run t cs ≡ ok u → Inv u
unfolding run
run-Inv t [] v h = ground arith
run-Inv t (c ∷ cs) v h =
    let (w, made, e) = >>=-eq-ok (step t c) _ h in run-Inv w cs (step-Inv t c v made) e

-- Every history of calls from the start of the program leaves the slot table well formed: the
-- slots below its count are backed by chunks and have generations from 1 to 2 ^ 32 - 1, and
-- each of them holds an object or stands on the free list, where no slot stands twice.
pub run-initial-Inv : (cs : List Call) {t : Table} → run initial cs ≡ ok t → Inv t
run-initial-Inv cs = run-Inv initial cs initial-Inv
