-- ===== src/Managed/Reader.antt =====
-- `absolute_managed_get` takes no lock: it loads the generation, the pointer and the generation
-- again, and other threads write between the loads (Managed).
use absolute.Prelude.{ℕ, suc, ◌+◌, ◌-◌, ◌%◌, ◌<◌, ◌≡◌, ◌≢◌, refl, ◌⊎◌, arith}
use absolute.Managed.Slots.{Slot, word}
use absolute.Managed.Invariant.{IsGeneration}
use absolute.Managed.{next_generation, read_pointer, read_type}

-- A store that a writer makes to a slot's atomic fields. The generation is only ever stored as the next one.
pub data Store : Type 0 where
  pointer : ℕ → Store
  type : ℕ → Store
  next : Store

pub store : Slot → Store → Slot
store s (pointer p) = record s { pointer = p }
store s (type t) = record s { type = t }
store s next = record s { generation = next_generation s.generation }

-- `s'` is `s` after stores of other threads, `n` of which change the generation.
pub data Stores : ℕ → Slot → Slot → Type 0 where
  done : {s : Slot} → Stores 0 s s
  other : {n : ℕ} {s s' : Slot} (w : Store) → w ≢ next → Stores n (store s w) s' → Stores n s s'
  change : {n : ℕ} {s s' : Slot} → Stores n (store s next) s' → Stores (suc n) s s'

store-generation : (s : Slot) (w : Store) → w ≢ next → (store s w).generation ≡ s.generation
unfolding store
store-generation s (pointer p) h = refl
store-generation s (type t) h = refl
store-generation s next h = absurd (h refl)

next_generation_lem : (g : ℕ) → IsGeneration g → next_generation g ≡ g % (word - 1) + 1
unfolding next_generation
next_generation_lem g h = ground arith

Stores-generation :
    {n : ℕ} {s s' : Slot}
    → Stores n s s'
    → IsGeneration s.generation
    → s'.generation ≡ (s.generation - 1 + n) % (word - 1) + 1
unfolding store
Stores-generation done h = omega arith
Stores-generation (other {s = s} w ne rest) h =
    let same = store-generation s w ne in omega (arith, same, Stores-generation rest (rw same h))
Stores-generation (change {s = s} rest) h =
    let e = next_generation_lem s.generation h in
    omega (arith, e, Stores-generation rest (rw e (omega arith)))

-- Two loads of the generation that agree enclose no change of it.
same_between :
    (m n e : ℕ) (s₁ s₂ s₃ : Slot)
    → IsGeneration s₁.generation
    → Stores m s₁ s₂
    → Stores n s₂ s₃
    → m + n < word - 1
    → s₁.generation ≡ e
    → s₃.generation ≡ e
    → s₂.generation ≡ e
same_between m n e s₁ s₂ s₃ h a b few p q =
    let first = Stores-generation a h in
    let second = Stores-generation b (rw first (omega arith)) in omega (arith, first, second)

-- With fewer than 2 ^ 32 - 1 changes of the generation between its first and its last load, a
-- lock-free read of the pointer or the type returns 0 or what an undisturbed read at the moment
-- of its second load returns: never the value that the slot has for another handle.
pub read_linearizes :
    (m n e : ℕ) (s₁ s₂ s₃ : Slot)
    → IsGeneration s₁.generation
    → Stores m s₁ s₂
    → Stores n s₂ s₃
    → m + n < word - 1
    → ((read_pointer e s₁ s₂ s₃ ≡ 0)
        ⊎ ((s₂.generation ≡ e) × (read_pointer e s₁ s₂ s₃ ≡ read_pointer e s₂ s₂ s₂)))
      × ((read_type e s₁ s₂ s₃ ≡ 0)
          ⊎ ((s₂.generation ≡ e) × (read_type e s₁ s₂ s₃ ≡ read_type e s₂ s₂ s₂)))
unfolding read_pointer read_type
read_linearizes m n e s₁ s₂ s₃ h a b few =
    let same = same_between m n e s₁ s₂ s₃ h a b few in (ground (arith, same), ground (arith, same))
