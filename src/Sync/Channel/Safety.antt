-- ===== src/Sync/Channel/Safety.antt =====
-- The invariant of a channel, in every history.
use absolute.Prelude.{
  ℕ, suc, ◌+◌, ◌≤◌, ◌<◌, ◌≡◌, ◌⊎◌, inl, inr, refl, sym, ap, ◌∙◌, true, false, List, [], ◌∷◌, ◌++◌,
  arith, length, length-append,
}
use absolute.Sync.{front, behind, Reach, Reach-keeps}
use absolute.Sync.Channel.{push, pop, close}
use absolute.Prelude.Int.{ℤ, pos, negsuc, clamp}
use mathlib.Core.List.{append_assoc}
use absolute.Sync.Channel.{create}
use absolute.Sync.Channel.Rounds.{
  send-true, send-false, send-waits, try_send-true, receive-some, receive-none, receive-waits,
  try_receive-some,
}
use absolute.Sync.Channel.Histories.{
  System, start, Step, sends, send_fails, sender_sleeps, tries_send, receives, receive_ends,
  receiver_sleeps, tries_receive, closes,
}

module _ (A : Type 0) (capacity : ℕ) where
  -- What was received, and behind it what is in the queue, is what was sent.
  abbrev pub InOrder : System A → Type 0
  InOrder s = s.sent ≡ s.received ++ s.channel.queue

  abbrev pub Bounded : System A → Type 0
  Bounded s =
      (s.channel.capacity ≡ capacity) × ((capacity ≡ 0) ⊎ (length s.channel.queue ≤ capacity))

  -- A receiver waits beside no more values than resumed receivers will take, and a sender beside no
  -- more room than resumed senders will fill.
  abbrev pub Awaits : System A → Type 0
  Awaits s =
      ((s.channel.receive_waiters ≡ []) ⊎ (length s.channel.queue ≤ s.woken_receivers))
      × ((s.channel.send_waiters ≡ []) ⊎ (capacity ≤ length s.channel.queue + s.woken_senders))

  abbrev pub Ends : System A → Type 0
  Ends s =
      (s.channel.closed ≡ false)
      ⊎ ((s.channel.send_waiters ≡ []) × (s.channel.receive_waiters ≡ []))

  abbrev pub Inv : System A → Type 0
  Inv s = InOrder s × Bounded s × Awaits s × Ends s

  front-woken :
      (n w : ℕ) (xs : List ℕ)
      → (xs ≡ []) ⊎ (n ≤ w)
      → (behind xs ≡ []) ⊎ (suc n ≤ w + length (front xs))
  front-woken n w [] h = inl refl
  front-woken n w (x ∷ xs) (inl e) = cc
  front-woken n w (x ∷ xs) (inr h) = inr (omega arith)

  pushed-Inv :
      (s : System A) (val : A) (woken_senders : ℕ)
      → s.woken_senders ≤ suc woken_senders
      → ((s.channel.capacity ≡ 0) ⊎ (length s.channel.queue < s.channel.capacity))
      → s.channel.closed ≡ false
      → Inv s
      → Inv (record s {
        channel = push val s.channel;
        woken_senders = woken_senders;
        woken_receivers = s.woken_receivers + length (front s.channel.receive_waiters);
        sent = s.sent ++ val ∷ [];
      })
  pushed-Inv s val n k room going (o, (c, b), (r, w), e) =
      let grown = length-append s.channel.queue (val ∷ []) in
      (
        ap (λ x. x ++ val ∷ []) o ∙ append_assoc s.received s.channel.queue (val ∷ []),
        (c, ground (arith, room, c, grown)),
        (
          elim (front-woken (length s.channel.queue) s.woken_receivers s.channel.receive_waiters
              r) [
                | inl none_left ↦ inl none_left
                | inr one_woken ↦ inr (omega (arith, one_woken, grown))
              ],
          ground (arith, w, grown, k),
        ),
        inl going,
      )

  popped-Inv :
      (s : System A) (val : A) (xs : List A) (woken_receivers : ℕ)
      → s.woken_receivers ≤ suc woken_receivers
      → s.channel.queue ≡ val ∷ xs
      → Inv s
      → Inv (record s {
        channel = pop xs s.channel;
        woken_receivers = woken_receivers;
        woken_senders = s.woken_senders + length (front s.channel.send_waiters);
        received = s.received ++ val ∷ [];
      })
  popped-Inv s val xs n k there (o, (c, b), (r, w), e) =
      let shorter = ap length there in
      (
        o ∙ ap (s.received ++◌) there ∙ sym (append_assoc s.received (val ∷ []) xs),
        (c, ground (arith, b, shorter)),
        (
          ground (arith, r, shorter, k),
          elim (front-woken capacity (length s.channel.queue + s.woken_senders)
              s.channel.send_waiters w) [
                | inl none_left ↦ inl none_left
                | inr one_woken ↦ inr (omega (arith, one_woken, shorter))
              ],
        ),
        ground (arith, e),
      )

  closed_senders : (s : System A) → s.channel.closed ≡ true → Ends s → s.channel.send_waiters ≡ []
  closed_senders s h (inl e) = cc
  closed_senders s h (inr (p, q)) = p

  Step-Inv : (s u : System A) → Step A s u → Inv s → Inv u
  unfolding close
  Step-Inv s u (sends caller again n val m tasks k l f g) v =
      let (room, going, h, i) = send-true A caller val s.channel m tasks f in
      rw (g, h, i) (pushed-Inv s val n (omega arith) room going v)
  Step-Inv s u (send_fails caller again n val m k l f g) (o, b, (r, w), e) =
      let (ended, h) = send-false A caller val s.channel m f in
      rw (g, h) (o, b, (r, inl (closed_senders s ended e)), e)
  Step-Inv s u (sender_sleeps caller again n val m k l f g) (o, (c, b), (r, w), e) =
      let (full, going, h) = send-waits A caller val s.channel m f in
      rw (g, h) (o, (c, b), (r, inr (omega (arith, full, c))), inl going)
  Step-Inv s u (tries_send val m tasks f g) v =
      let (room, going, h, i) = try_send-true A val s.channel m tasks f in
      rw (g, h, i) (pushed-Inv s val s.woken_senders (omega arith) room going v)
  Step-Inv s u (receives caller again n val m tasks k l f g) v =
      let (xs, there, h, i) = receive-some A caller val s.channel m tasks f in
      rw (g, h, i) (popped-Inv s val xs n (omega arith) there v)
  Step-Inv s u (receive_ends caller again n m k l f g) (o, b, (r, w), e) =
      let (empty, h) = receive-none A caller s.channel m f in
      rw (g, h) (o, b, (inr (omega (arith, ap length empty)), w), e)
  Step-Inv s u (receiver_sleeps caller again n m k l f g) (o, (c, b), (r, w), e) =
      let (empty, going, h) = receive-waits A caller s.channel m f in
      rw (g, h) (o, (c, b), (inr (omega (arith, ap length empty)), w), inl going)
  Step-Inv s u (tries_receive val m tasks f g) v =
      let (xs, there, h, i) = try_receive-some A val s.channel m tasks f in
      rw (g, h, i) (popped-Inv s val xs s.woken_receivers (omega arith) there v)
  Step-Inv s u (closes senders receivers m f g) (o, (c, b), (r, w), e) =
      let h : m ≡ record s.channel { closed = true; send_waiters = []; receive_waiters = [] } =
        cc in
      rw (g, h) (o, (c, b), (inl refl, inl refl), inr (refl, refl))

-- In every history of a channel that was made with a capacity, what was sent is what was received,
-- in the same order, and behind it what is in the queue, which is never longer than a capacity above
-- 0. While receivers wait there are no more values than resumed receivers that have not run yet, and
-- while senders wait no more room than resumed senders; nobody waits at a closed channel.
pub Reach-Channel :
    (A : Type 0) (capacity : ℤ) (u : System A)
    → Reach (Step A) (start A (create capacity)) u
    → Inv A (clamp capacity) u
unfolding create
Reach-Channel A (pos n) u =
    Reach-keeps (Step A) (Inv A n) (Step-Inv A n)
      (refl, (refl, inr (omega arith)), (inl refl, inl refl), inl refl)
Reach-Channel A (negsuc n) u =
    Reach-keeps (Step A) (Inv A 0) (Step-Inv A 0)
      (refl, (refl, inr (omega arith)), (inl refl, inl refl), inl refl)
