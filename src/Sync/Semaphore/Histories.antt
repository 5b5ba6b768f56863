-- ===== src/Sync/Semaphore/Histories.antt =====
-- Histories of a semaphore: calls of any callers in any order.
use absolute.Prelude.{
  ℕ, zero, suc, ◌+◌, ◌-◌, ◌≤◌, ◌<◌, ◌≡◌, ◌⊎◌, inl, inr, refl, sym, ap, ◌∙◌, true, ◌||◌, List, [],
  ◌∷◌, ◌++◌, arith, length, take, drop, ltb, ◌==◌, Bool-cases, some, take-append-drop,
}
use absolute.Prelude.Int.{pos}
use mathlib.Core.List.{append_assoc}
use absolute.Sync.{Caller, returns, waits, queue_up, Reach, Reach-keeps, queue_up-append}
use absolute.Sync.Semaphore.{Semaphore, create, acquire, try_acquire, release}

-- A semaphore, the resumed tasks that have not run since, the permits that callers took and gave,
-- and the tasks that were queued and resumed so far, in order.
pub record System : Type 0 where
  pub semaphore : Semaphore
  pub woken : ℕ
  pub taken : ℕ
  pub given : ℕ
  pub queued : List ℕ
  pub resumed : List ℕ

abbrev pub start : Semaphore → System
start s = record { semaphore = s; woken = 0; taken = 0; given = 0; queued = []; resumed = [] }

pub data Step (s u : System) : Type 0 where
  acquires :
      (caller : Caller) (again n : ℕ) (m : Semaphore)
      → again ≤ 1
      → s.woken ≡ again + n
      → acquire caller s.semaphore ≡ returns tt m []
      → u ≡ record s { semaphore = m; woken = n; taken = suc s.taken }
      → Step s u
  sleeps :
      (caller : Caller) (again n : ℕ) (m : Semaphore)
      → again ≤ 1
      → s.woken ≡ again + n
      → acquire caller s.semaphore ≡ waits m
      → u ≡ record s { semaphore = m; woken = n; queued = queue_up caller s.queued }
      → Step s u
  tries :
      (m : Semaphore)
      → try_acquire s.semaphore ≡ (true, m)
      → u ≡ record s { semaphore = m; taken = suc s.taken }
      → Step s u
  releases :
      (n : ℕ) (tasks : List ℕ) (m : Semaphore)
      → release (pos n) s.semaphore ≡ ((true, tasks), m)
      → u ≡ record s {
        semaphore = m;
        woken = s.woken + length tasks;
        given = s.given + n;
        resumed = s.resumed ++ tasks;
      }
      → Step s u

module _ (initial maximum : ℕ) where
  abbrev pub Inv : System → Type 0
  Inv s =
      (s.semaphore.maximum ≡ maximum)
      × (s.semaphore.permits ≤ maximum)
      × (s.semaphore.permits + s.taken ≡ initial + s.given)
      × ((s.semaphore.waiters ≡ []) ⊎ (s.semaphore.permits ≤ s.woken))
      × (s.queued ≡ s.resumed ++ s.semaphore.waiters)

  acquire-returns :
      (caller : Caller) (s m : Semaphore)
      → acquire caller s ≡ returns tt m []
      → (0 < s.permits) × (m ≡ record s { permits = s.permits - 1 })
  unfolding acquire
  acquire-returns caller s m e = elim (Bool-cases (ltb 0 s.permits)) [
    | inl some_left ↦ ground (arith, e, some_left)
    | inr none_left ↦ ground (arith, e, none_left)
  ]

  acquire-waits :
      (caller : Caller) (s m : Semaphore)
      → acquire caller s ≡ waits m
      → (s.permits ≡ 0) × (m ≡ record s { waiters = queue_up caller s.waiters })
  unfolding acquire
  acquire-waits caller s m e = elim (Bool-cases (ltb 0 s.permits)) [
    | inl some_left ↦ ground (arith, e, some_left)
    | inr none_left ↦ ground (arith, e, none_left)
  ]

  try_acquire-true :
      (s m : Semaphore)
      → try_acquire s ≡ (true, m)
      → (0 < s.permits) × (m ≡ record s { permits = s.permits - 1 })
  unfolding try_acquire
  try_acquire-true s m e = elim (Bool-cases (s.permits == 0)) [
    | inl none_left ↦ ground (arith, e, none_left)
    | inr some_left ↦ ground (arith, e, some_left)
  ]

  release-true :
      (n : ℕ) (s m : Semaphore) (tasks : List ℕ)
      → release (pos n) s ≡ ((true, tasks), m)
      → (n ≤ s.maximum - s.permits)
        × (tasks ≡ take n s.waiters)
        × (m ≡ record s { permits = s.permits + n; waiters = drop n s.waiters })
  unfolding release
  release-true n s m tasks e = elim (Bool-cases (n == 0 || ltb (s.maximum - s.permits) n)) [
    | inl refused ↦ ground (arith, e, refused)
    | inr granted ↦ ground (arith, e, granted)
  ]

  drop-nil : (n : ℕ) → drop {A = ℕ} n [] ≡ []
  drop-nil zero = refl
  drop-nil (suc n) = refl

  -- Where tasks stay in the queue, one was taken off it for each permit.
  drop-all : (n : ℕ) (xs : List ℕ) → (drop n xs ≡ []) ⊎ (length (take n xs) ≡ n)
  drop-all zero xs = inr refl
  drop-all (suc n) [] = inl refl
  drop-all (suc n) (x ∷ xs) = ground (arith, drop-all n xs)

  wakes_enough :
      (n p w : ℕ) (xs : List ℕ)
      → (xs ≡ []) ⊎ (p ≤ w)
      → (drop n xs ≡ []) ⊎ (p + n ≤ w + length (take n xs))
  wakes_enough n p w [] h = inl (drop-nil n)
  wakes_enough n p w (x ∷ xs) (inl e) = cc
  wakes_enough n p w (x ∷ xs) (inr h) = elim (drop-all n (x ∷ xs)) [
    | inl e ↦ inl e
    | inr e ↦ inr (omega (arith, e, h))
  ]

  Step-Inv : (s u : System) → Step s u → Inv s → Inv u
  Step-Inv s u (acquires caller again n m k w e f) (c, b, p, a, o) =
      let (left, g) = acquire-returns caller s.semaphore m e in
      rw (f, g) (c, omega (arith, b), omega (arith, p, left), ground (arith, a, w, k), o)
  Step-Inv s u (sleeps caller again n m k w e f) (c, b, p, a, o) =
      let (left, g) = acquire-waits caller s.semaphore m e in
      rw (f, g)
        (
          c,
          b,
          p,
          inr (omega (arith, left)),
          ap (queue_up caller) o ∙ queue_up-append caller s.resumed s.semaphore.waiters,
        )
  Step-Inv s u (tries m e f) (x, b, p, a, o) =
      let (left, g) = try_acquire-true s.semaphore m e in
      rw (f, g) (x, omega (arith, b), omega (arith, p, left), ground (arith, a), o)
  Step-Inv s u (releases n tasks m e f) (c, b, p, a, o) =
      let (room, t, g) = release-true n s.semaphore m tasks e in
      rw (f, g, t)
        (
          c,
          omega (arith, b, c, room),
          omega (arith, p),
          wakes_enough n s.semaphore.permits s.woken s.semaphore.waiters a,
          o
              ∙ ap (s.resumed ++◌) (sym (take-append-drop n s.semaphore.waiters))
              ∙ sym (
                  append_assoc s.resumed (take n s.semaphore.waiters) (drop n s.semaphore.waiters)),
        )

  created :
      (s : Semaphore)
      → create (pos initial) (pos maximum) ≡ some s
      → (initial ≤ maximum) × (s ≡ record { permits = initial; maximum = maximum; waiters = [] })
  unfolding create
  created s e = elim (Bool-cases (maximum == 0 || ltb maximum initial)) [
    | inl refused ↦ ground (arith, e, refused)
    | inr granted ↦ ground (arith, e, granted)
  ]

  -- In every history of a semaphore that was created, its permits are never more than the maximum,
  -- and with the ones that were taken they are the initial ones and the ones that were given. While
  -- tasks wait there are no more permits than resumed tasks that have not run yet, so no permit
  -- lies idle beside a task that waits; tasks are resumed in the order in which they queued.
  pub Reach-Semaphore :
      (s : Semaphore) (u : System)
      → create (pos initial) (pos maximum) ≡ some s
      → Reach Step (start s) u
      → Inv u
  Reach-Semaphore s u e r =
      let (fits, g) = created s e in
      Reach-keeps Step Inv Step-Inv (rw g (refl, fits, refl, inl refl, refl)) r
