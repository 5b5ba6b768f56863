-- ===== src/Sync/Channel/Rounds.antt =====
-- What each answer of a round of a channel means for its state.
use absolute.Prelude.{
  ℕ, ◌≤◌, ◌<◌, ◌≡◌, ◌⊎◌, inl, inr, refl, ap, true, false, List, [], ◌∷◌, arith, length,
  if◌then◌else◌, Bool-cases, none, some,
}
use absolute.Sync.{Caller, returns, waits, queue_up, front}
use absolute.Sync.Channel.{
  Channel, is_full, push, send, try_send, pop, receive_at, receive, try_receive_at, try_receive,
}

module _ (A : Type 0) where
  not_full : (c : Channel A) → is_full c ≡ false → (c.capacity ≡ 0) ⊎ (length c.queue < c.capacity)
  not_full c h = ground (arith, h)

  full : (c : Channel A) → is_full c ≡ true → c.capacity ≤ length c.queue
  full c h = ground (arith, h)

  pub send-true :
      (caller : Caller) (val : A) (c m : Channel A) (tasks : List ℕ)
      → send caller val c ≡ returns true m tasks
      → ((c.capacity ≡ 0) ⊎ (length c.queue < c.capacity))
        × (c.closed ≡ false)
        × (m ≡ push val c)
        × (tasks ≡ front c.receive_waiters)
  unfolding send
  send-true caller val c m tasks e = elim (Bool-cases c.closed) [
    | inl ended ↦ ground (arith, e, ended)
    | inr going ↦ elim (Bool-cases (is_full c)) [
      | inl no_room ↦ ground (arith, e, going, no_room)
      | inr room ↦ ground (arith, e, going, room, not_full c room)
    ]
  ]

  pub send-false :
      (caller : Caller) (val : A) (c m : Channel A)
      → send caller val c ≡ returns false m []
      → (c.closed ≡ true) × (m ≡ c)
  unfolding send
  send-false caller val c m e = elim (Bool-cases c.closed) [
    | inl ended ↦ ground (arith, e, ended)
    | inr going ↦ elim (Bool-cases (is_full c)) [
      | inl no_room ↦ ground (arith, e, going, no_room)
      | inr room ↦ ground (arith, e, going, room)
    ]
  ]

  pub send-waits :
      (caller : Caller) (val : A) (c m : Channel A)
      → send caller val c ≡ waits m
      → (c.capacity ≤ length c.queue)
        × (c.closed ≡ false)
        × (m ≡ record c { send_waiters = queue_up caller c.send_waiters })
  unfolding send
  send-waits caller val c m e = elim (Bool-cases c.closed) [
    | inl ended ↦ ground (arith, e, ended)
    | inr going ↦ elim (Bool-cases (is_full c)) [
      | inl no_room ↦ ground (arith, e, going, no_room, full c no_room)
      | inr room ↦ ground (arith, e, going, room)
    ]
  ]

  pub try_send-true :
      (val : A) (c m : Channel A) (tasks : List ℕ)
      → try_send val c ≡ ((true, tasks), m)
      → ((c.capacity ≡ 0) ⊎ (length c.queue < c.capacity))
        × (c.closed ≡ false)
        × (m ≡ push val c)
        × (tasks ≡ front c.receive_waiters)
  unfolding try_send
  try_send-true val c m tasks e = elim (Bool-cases c.closed) [
    | inl ended ↦ ground (arith, e, ended)
    | inr going ↦ elim (Bool-cases (is_full c)) [
      | inl no_room ↦ ground (arith, e, going, no_room)
      | inr room ↦ ground (arith, e, going, room, not_full c room)
    ]
  ]

  Queue-cases : (xs : List A) → (xs ≡ []) ⊎ ((y : A) × (ys : List A) × (xs ≡ y ∷ ys))
  Queue-cases [] = inl refl
  Queue-cases (x ∷ xs) = inr (x, xs, refl)

  receive_of :
      (caller : Caller) (c : Channel A) (y : A) (ys : List A)
      → c.queue ≡ y ∷ ys
      → receive caller c ≡ returns (some y) (pop ys c) (front c.send_waiters)
  unfolding receive receive_at
  receive_of caller c y ys e = ap (λ q. receive_at caller q c) e

  receive_empty :
      (caller : Caller) (c : Channel A)
      → c.queue ≡ []
      → receive caller c ≡ (
          if c.closed
          then returns none c []
          else waits (record c { receive_waiters = queue_up caller c.receive_waiters }))
  unfolding receive receive_at
  receive_empty caller c e = ap (λ q. receive_at caller q c) e

  try_receive_of :
      (c : Channel A) (y : A) (ys : List A)
      → c.queue ≡ y ∷ ys
      → try_receive c ≡ ((some y, front c.send_waiters), pop ys c)
  unfolding try_receive try_receive_at
  try_receive_of c y ys e = ap (λ q. try_receive_at q c) e

  try_receive_empty : (c : Channel A) → c.queue ≡ [] → try_receive c ≡ ((none, []), c)
  unfolding try_receive try_receive_at
  try_receive_empty c e = ap (λ q. try_receive_at q c) e

  pub receive-some :
      (caller : Caller) (val : A) (c m : Channel A) (tasks : List ℕ)
      → receive caller c ≡ returns (some val) m tasks
      → (xs : List A) × (c.queue ≡ val ∷ xs) × (m ≡ pop xs c) × (tasks ≡ front c.send_waiters)
  receive-some caller val c m tasks e = elim (Queue-cases c.queue) [
    | inl empty ↦ elim (Bool-cases c.closed) [
      | inl ended ↦ ground (arith, e, ended, receive_empty caller c empty)
      | inr going ↦ ground (arith, e, going, receive_empty caller c empty)
    ]
    | inr (y, ys, there) ↦
        let made = receive_of caller c y ys there in
        (ys, cc (there, made, e), cc (made, e), cc (made, e))
  ]

  pub receive-none :
      (caller : Caller) (c m : Channel A)
      → receive caller c ≡ returns none m []
      → (c.queue ≡ []) × (m ≡ c)
  receive-none caller c m e = elim (Queue-cases c.queue) [
    | inl empty ↦ elim (Bool-cases c.closed) [
      | inl ended ↦ (empty, ground (arith, e, ended, receive_empty caller c empty))
      | inr going ↦ ground (arith, e, going, receive_empty caller c empty)
    ]
    | inr (y, ys, there) ↦ let made = receive_of caller c y ys there in (cc (made, e), cc (made, e))
  ]

  pub receive-waits :
      (caller : Caller) (c m : Channel A)
      → receive caller c ≡ waits m
      → (c.queue ≡ [])
        × (c.closed ≡ false)
        × (m ≡ record c { receive_waiters = queue_up caller c.receive_waiters })
  receive-waits caller c m e = elim (Queue-cases c.queue) [
    | inl empty ↦ elim (Bool-cases c.closed) [
      | inl ended ↦ ground (arith, e, ended, receive_empty caller c empty)
      | inr going ↦ ground (arith, e, going, empty, receive_empty caller c empty)
    ]
    | inr (y, ys, there) ↦
        let made = receive_of caller c y ys there in (cc (made, e), cc (made, e), cc (made, e))
  ]

  pub try_receive-some :
      (val : A) (c m : Channel A) (tasks : List ℕ)
      → try_receive c ≡ ((some val, tasks), m)
      → (xs : List A) × (c.queue ≡ val ∷ xs) × (m ≡ pop xs c) × (tasks ≡ front c.send_waiters)
  try_receive-some val c m tasks e = elim (Queue-cases c.queue) [
    | inl empty ↦ ground (arith, e, try_receive_empty c empty)
    | inr (y, ys, there) ↦
        let made = try_receive_of c y ys there in
        (ys, cc (there, made, e), cc (made, e), cc (made, e))
  ]
