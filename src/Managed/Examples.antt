-- ===== src/Managed/Examples.antt =====
-- Runs of Managed on small inputs, and its theorems at such inputs.
use absolute.Prelude.{
  ℕ, ◌≡◌, ◌≢◌, ◌⊎◌, refl, [], ◌∷◌, true, false, some, none, Result, ok, err, arith,
}
use absolute.Managed.Slots.{Slot, Table, initial, Abort, leaked, fault, update}
use absolute.Managed.Invariant.{Inv, initial-Inv}
use absolute.Managed.Operations.{creates, destroys, step, run, run-initial-Inv, create-Inv}
use absolute.Managed.Refinement.{IsHandle, get-destroy, get-transfer}
use absolute.Managed.Allocation.{create-Adds}
use absolute.Managed.Stale.{get-run_expired}
use absolute.Managed.Reader.{
  Stores, done, other, change, pointer, type, next, store, read_linearizes,
}
use absolute.Managed.Release.{destroy_once, deleter_of}
use absolute.Managed.Capsule.{World, create_typed, unwrap}
use absolute.Managed.Capsule.Ownership.{unwrap-create_typed}
use absolute.Managed.{create, get, destroy, transfer, read_pointer, read_type, check_leaks}

-- Slot 0 with the object at 80: the handle is generation 1 of slot 0.
abbrev one : Result Abort (ℕ × Table)
one = create initial true 80

abbrev table_of : Result Abort (ℕ × Table) → Table
table_of (ok r) = r.1
table_of (err e) = initial

abbrev one_table : Table
one_table = table_of one

abbrev first : ℕ
first = 0x1_0000_0000

abbrev second : ℕ
second = 0x2_0000_0000

one-ok : one ≡ ok (first, one_table)
unfolding create
one-ok = refl

one-Inv : Inv one_table
one-Inv = create-Inv initial true 80 initial-Inv one-ok

life :
    (get one_table first ≡ 80)
    × (get (destroy one_table first) first ≡ 0)
    × (check_leaks one_table ≡ err (leaked 1))
unfolding create get destroy check_leaks
life = (refl, refl, refl)

create-Adds_example : IsHandle first × (get initial first ≡ 0) × (get one_table first ≡ 80)
create-Adds_example = create-Adds initial true 80 first initial-Inv (omega arith) one-ok

get-destroy_example : get (destroy one_table first) first ≡ 0
get-destroy_example = get-destroy one_table first first one-Inv (omega arith) (omega arith)

abbrev moved_table : Table
moved_table = table_of (transfer one_table first)

moved-ok : transfer one_table first ≡ ok (second, moved_table)
unfolding create transfer
moved-ok = refl

get-transfer_example :
    (◌≢◌ {A = ℕ} second first)
    × (get one_table first ≢ 0)
    × (get moved_table second ≡ get one_table first)
get-transfer_example =
    get-transfer one_table first second one-Inv (omega arith) (omega arith) moved-ok

history-ok : run initial (creates true 80 ∷ destroys first ∷ []) ≡ ok (destroy one_table first)
unfolding create run step
history-ok = refl

run-initial-Inv_example : Inv (destroy one_table first)
run-initial-Inv_example = run-initial-Inv (creates true 80 ∷ destroys first ∷ []) history-ok

-- The freed slot 0 is used again, under generation 2.
abbrev again : Table
again = table_of (create (destroy one_table first) true 96)

destroyed-ok : step one_table (destroys first) ≡ ok (destroy one_table first)
unfolding step
destroyed-ok = refl

again-ok : run (destroy one_table first) (creates true 96 ∷ []) ≡ ok again
unfolding create run step destroy
again-ok = refl

again-second : get again second ≡ 96
unfolding create destroy get
again-second = refl

live_first : get one_table first ≡ 80
unfolding create get
live_first = refl

dead_first : get (destroy one_table first) first ≡ 0
unfolding create get destroy
dead_first = refl

get-run_expired_example : get again first ≡ 0
get-run_expired_example =
    get-run_expired one_table (destroys first) (creates true 96 ∷ []) first one-Inv destroyed-ok
      again-ok (λ e. omega (arith, e, live_first)) dead_first (omega arith)

abbrev busy_slot : Slot
busy_slot = record { pointer = 80; generation = 1; type = 0; deleter = 1 }

-- Another thread stores a type between the first two loads, and frees the slot after the second.
disturbed :
    Stores 1 (store busy_slot (type 7)) (store (store (store busy_slot (type 7)) (pointer 0)) next)
disturbed = other (pointer 0) (λ e. cc) (change done)

read_linearizes_example :
    let typed = store busy_slot (type 7) in
    let freed = store (store typed (pointer 0)) next in
    ((read_pointer 1 busy_slot typed freed ≡ 0)
      ⊎ ((typed.generation ≡ 1)
          × (read_pointer 1 busy_slot typed freed ≡ read_pointer 1 typed typed typed)))
    × ((read_type 1 busy_slot typed freed ≡ 0)
        ⊎ ((typed.generation ≡ 1)
            × (read_type 1 busy_slot typed freed ≡ read_type 1 typed typed typed)))
read_linearizes_example =
    read_linearizes 0 1 1 busy_slot (store busy_slot (type 7))
      (store (store (store busy_slot (type 7)) (pointer 0)) next) (omega arith)
      (other (type 7) (λ e. cc) done) disturbed (omega arith)

destroy_once_example :
    ((get one_table first ≡ 0) × (destroy one_table first ≡ one_table)
      ⊎ (get one_table first ≢ 0)
        × ((destroy one_table first).released
            ≡ (deleter_of one_table first, get one_table first) ∷ one_table.released))
    × (destroy (destroy one_table first) first ≡ destroy one_table first)
destroy_once_example = destroy_once one_table first one-Inv (omega arith)

abbrev world : World
world = record { table = one_table; capsules = λ _. none; next = 1 }

abbrev packed : World
packed = record {
  table = moved_table;
  capsules =
      update (λ _. none) 1 (some (record { handle = second; transferred = false; deleter_fn = 0 }));
  next = 2;
}

packed-ok : create_typed world first 0 ≡ ok (1, packed)
unfolding create_typed create transfer
packed-ok = refl

unwrap-create_typed_example :
    (q : ℕ × World) × (unwrap packed 1 ≡ ok q)
    × (get q.1.table q.0 ≡ get one_table first)
    × (get q.1.table first ≡ 0)
    × (unwrap q.1 1 ≡ err fault)
unwrap-create_typed_example =
    unwrap-create_typed world first 0 one-Inv (omega arith) (omega arith) packed-ok
