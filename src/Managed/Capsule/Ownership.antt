-- ===== src/Managed/Capsule/Ownership.antt =====
-- What a transfer capsule of Managed/Capsule does to the map from handles to objects.
use absolute.Prelude.{
  ℕ, ◌<◌, ◌≡◌, refl, ◌≢◌, false, ◌∷◌, some, none, ok, err, >>=-eq-ok, ok-injective, arith,
}
use absolute.Managed.Slots.{Table, fault, update}
use absolute.Managed.Invariant.{Inv}
use absolute.Managed.Operations.{transfer-Inv, released-Inv}
use absolute.Managed.Refinement.{IsHandle, get-transfer, get-destroy, transfer_fresh}
use absolute.Managed.Capsule.{Capsule, World, create_typed, unwrap, drop_object, destroy_at}
use absolute.Managed.{transfer, get, destroy}

-- What a creation that succeeds has done.
record Created (w : World) (h deleter : ℕ) (r : ℕ × World) : Type 0 where
  moved : ℕ × Table
  transfers : transfer w.table h ≡ ok moved
  address : r.0 ≡ w.next
  table_is : r.1.table ≡ moved.1
  stored :
      r.1.capsules w.next
      ≡ some (record { handle = moved.0; transferred = false; deleter_fn = deleter })

create_typed-Created :
    (w : World) (h deleter : ℕ) {r : ℕ × World}
    → create_typed w h deleter ≡ ok r
    → Created w h deleter r
unfolding create_typed
create_typed-Created w h deleter e =
    let (m, t, made) = >>=-eq-ok (transfer w.table h) _ e in
    let same = ok-injective made in
    record {
      moved = m;
      transfers = t;
      address = rw (← same) refl;
      table_is = rw (← same) refl;
      stored = rw (← same) (ground arith);
    }

unwrap_stored :
    (w : World) (p : ℕ) (c : Capsule)
    → p ≢ 0
    → c.transferred ≡ false
    → w.capsules p ≡ some c
    → let u = record w { capsules = update w.capsules p none } in
      (unwrap w p ≡ ok (c.handle, u)) × (unwrap u p ≡ err fault)
unfolding unwrap
unwrap_stored w p c ne fresh e = (ground arith, ground arith)

get_zero : (t : Table) → get t 0 ≡ 0
unfolding get
get_zero t = refl

get-drop_object : (t : Table) (c : Capsule) (k : ℕ) → get (drop_object t c) k ≡ get t k
unfolding drop_object get
get-drop_object t c k = ground arith

drop_object-Inv : (t : Table) (c : Capsule) → Inv t → Inv (drop_object t c)
unfolding drop_object
drop_object-Inv t c v =
    ground (arith, released-Inv t ((c.deleter_fn, get t c.handle) ∷ t.released) v)

destroy_stored :
    (w : World) (p : ℕ) (c : Capsule)
    → p ≢ 0
    → c.transferred ≡ false
    → c.handle ≢ 0
    → w.capsules p ≡ some c
    → destroy_at w p
      ≡ ok (record w {
        capsules = update w.capsules p none;
        table = destroy (drop_object w.table c) c.handle;
      })
unfolding destroy_at
destroy_stored w p c ne fresh live e = ground arith

-- An object put into a capsule comes out of it once: unwrapping returns a handle of the same
-- object, the handle that went in has no object any more, and a second unwrapping is a fault.
pub unwrap-create_typed :
    (w : World) (h deleter : ℕ) {r : ℕ × World}
    → Inv w.table
    → IsHandle h
    → 0 < w.next
    → create_typed w h deleter ≡ ok r
    → (q : ℕ × World) × (unwrap r.1 r.0 ≡ ok q)
      × (get q.1.table q.0 ≡ get w.table h)
      × (get q.1.table h ≡ 0)
      × (unwrap q.1 r.0 ≡ err fault)
unwrap-create_typed w h deleter {r} v a n e =
    let c = create_typed-Created w h deleter e in
    let (fresh, hi) = transfer_fresh w.table h v c.transfers in
    let new = get-transfer w.table h c.moved.0 v a hi c.transfers in
    let old = get-transfer w.table h h v a a c.transfers in
    let (first, second) = unwrap_stored r.1 w.next _ (omega arith) refl c.stored in
    (
      (c.moved.0, record r.1 { capsules = update r.1.capsules w.next none }),
      rw c.address first,
      rw c.table_is (ground (arith, new)),
      rw c.table_is (ground (arith, old)),
      rw c.address second,
    )

-- Destroying a capsule that was not unwrapped destroys the object: for every handle the effect
-- of putting the object into the capsule and destroying that is the effect of destroying it.
pub destroy_at-create_typed :
    (w : World) (h deleter k : ℕ) {r : ℕ × World}
    → Inv w.table
    → IsHandle h
    → IsHandle k
    → 0 < w.next
    → create_typed w h deleter ≡ ok r
    → (u : World) × (destroy_at r.1 r.0 ≡ ok u) × (get u.table k ≡ get (destroy w.table h) k)
destroy_at-create_typed w h deleter k {r} v a b n e =
    let c = create_typed-Created w h deleter e in
    let capsule : Capsule = record {
      handle = c.moved.0;
      transferred = false;
      deleter_fn = deleter;
    } in
    let (fresh, hi) = transfer_fresh w.table h v c.transfers in
    let made = transfer-Inv w.table h v c.transfers in
    let new = get-transfer w.table h c.moved.0 v a hi c.transfers in
    let there = get-transfer w.table h k v a b c.transfers in
    let gone =
      get-destroy (drop_object c.moved.1 capsule) c.moved.0 k (drop_object-Inv _ capsule made) hi
        b in
    let held : get c.moved.1 c.moved.0 ≢ 0 = ground (arith, new) in
    let live : c.moved.0 ≢ 0 = λ z. held (rw z (get_zero c.moved.1)) in
    let u : World = record r.1 {
      capsules = update r.1.capsules w.next none;
      table = destroy (drop_object r.1.table capsule) c.moved.0;
    } in
    (
      u,
      rw c.address (destroy_stored r.1 w.next capsule (omega arith) refl live c.stored),
      rw (c.table_is, gone, get-drop_object c.moved.1 capsule k, get-destroy w.table h k v a b)
          (ground (arith, there)),
    )
