-- ===== src/Sync/Channel/Closing.antt =====
-- A channel that was closed.
use absolute.Prelude.{
  ℕ, zero, suc, ◌+◌, ◌≡◌, refl, ap, true, false, List, [], ◌∷◌, ◌++◌, map, Option, none, some,
  length, arith,
}
use absolute.Sync.{Caller, returns, waits}
use absolute.Sync.Channel.{Channel, send, try_send, receive_at, receive, close}

module _ {A : Type 0} where
  -- The answers of a number of receives, up to one that waits.
  unfoldable pub receive_times : ℕ → Caller → Channel A → List (Option A)
  unfolding receive
  receive_times zero caller c = []
  receive_times (suc n) caller c = elim (receive caller c) [
    | returns answer c' tasks ↦ answer ∷ receive_times n caller c'
    | waits c' ↦ []
  ]

  abbrev pub times : ℕ → Option A → List (Option A)
  times zero answer = []
  times (suc n) answer = answer ∷ times n answer

  -- A channel that was closed, with what is left in it.
  abbrev closed_with : List A → ℕ → Channel A
  closed_with queue capacity = record {
    queue = queue;
    send_waiters = [];
    receive_waiters = [];
    capacity = capacity;
    closed = true;
  }

  receive_times-empty :
      (n : ℕ) (caller : Caller) (capacity : ℕ)
      → receive_times n caller (closed_with [] capacity) ≡ times n none
  unfolding receive_times receive receive_at
  receive_times-empty zero caller capacity = refl
  receive_times-empty (suc n) caller capacity = ap (none ∷◌) (receive_times-empty n caller capacity)

  receive_times-closed :
      (n : ℕ) (caller : Caller) (queue : List A) (capacity : ℕ)
      → receive_times (length queue + n) caller (closed_with queue capacity)
        ≡ map some queue ++ times n none
  unfolding receive_times receive receive_at
  receive_times-closed n caller [] capacity =
      let e : 0 + n ≡ n = omega arith in rw e (receive_times-empty n caller capacity)
  receive_times-closed n caller (x ∷ queue) capacity =
      let e : suc (length queue) + n ≡ suc (length queue + n) = omega arith in
      rw e (ap (some x ∷◌) (receive_times-closed n caller queue capacity))

-- Behind `close`, values are refused and change nothing, and a receiver never waits: it gets the
-- values that are left, in order, and from then on the answer that there is none.
pub close-receive_times :
    (A : Type 0) (c : Channel A) (caller : Caller) (val : A) (n : ℕ)
    → let c' = (close c).1 in
      (send caller val c' ≡ returns false c' [])
      × (try_send val c' ≡ ((false, []), c'))
      × (receive_times (length c.queue + n) caller c' ≡ map some c.queue ++ times n none)
unfolding close send try_send
close-receive_times A c caller val n =
    (refl, refl, receive_times-closed n caller c.queue c.capacity)
