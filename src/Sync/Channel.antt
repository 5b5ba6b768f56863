-- ===== src/Sync/Channel.antt =====
-- `ChannelImpl` and `TransferChannelImpl` of Absolute-Runtime/src/tasks.cpp, which differ in what
-- they carry: numbers, or capsules. A queue has fewer than 2 ^ 31 values.
pub mod Rounds
pub mod Histories
pub mod Safety
pub mod Closing
use absolute.Prelude.{
  ℕ, Bool, true, false, ◌&&◌, not, List, [], ◌∷◌, ◌++◌, Option, none, some, leb, ◌==◌,
  if◌then◌else◌, length,
}
use absolute.Prelude.Int.{ℤ, pos, negsuc}
use absolute.Sync.{Caller, Round, returns, waits, queue_up, front, behind}

pub record Channel (A : Type 0) : Type 0 where
  pub queue : List A
  pub send_waiters : List ℕ
  pub receive_waiters : List ℕ
  pub capacity : ℕ
  pub closed : Bool

-- `absolute_channel_create`; a capacity of 0 or less is none.
unfoldable pub create : {A : Type 0} → ℤ → Channel A
create (pos capacity) = record {
  queue = [];
  send_waiters = [];
  receive_waiters = [];
  capacity = capacity;
  closed = false;
}
create (negsuc n) = record {
  queue = [];
  send_waiters = [];
  receive_waiters = [];
  capacity = 0;
  closed = false;
}

abbrev pub is_full : {A : Type 0} → Channel A → Bool
is_full c = not (c.capacity == 0) && leb c.capacity (length c.queue)

-- The value at the back of the queue, and a receiver off its list.
abbrev pub push : {A : Type 0} → A → Channel A → Channel A
push val c = record c { queue = c.queue ++ val ∷ []; receive_waiters = behind c.receive_waiters }

-- A round of `absolute_channel_send`, with the receiver that it resumes.
unfoldable pub send : {A : Type 0} → Caller → A → Channel A → Round (Channel A) Bool
send caller val c =
    if c.closed
    then returns false c []
    else if is_full c
    then waits (record c { send_waiters = queue_up caller c.send_waiters })
    else returns true (push val c) (front c.receive_waiters)

unfoldable pub try_send : {A : Type 0} → A → Channel A → (Bool × List ℕ) × Channel A
try_send val c =
    if c.closed
    then ((false, []), c)
    else if is_full c
    then ((false, []), c)
    else ((true, front c.receive_waiters), push val c)

-- A value that is received leaves `xs` behind, and takes a sender off its list.
abbrev pub pop : {A : Type 0} → List A → Channel A → Channel A
pop xs c = record c { queue = xs; send_waiters = behind c.send_waiters }

-- A round of `absolute_channel_receive_checked`, at the queue; `none` is its answer `false`.
unfoldable pub receive_at :
    {A : Type 0} → Caller → List A → Channel A → Round (Channel A) (Option A)
receive_at caller [] c =
    if c.closed
    then returns none c []
    else waits (record c { receive_waiters = queue_up caller c.receive_waiters })
receive_at caller (x ∷ xs) c = returns (some x) (pop xs c) (front c.send_waiters)

unfoldable pub receive : {A : Type 0} → Caller → Channel A → Round (Channel A) (Option A)
unfolding receive_at
receive caller c = receive_at caller c.queue c

unfoldable pub try_receive_at : {A : Type 0} → List A → Channel A → (Option A × List ℕ) × Channel A
try_receive_at [] c = ((none, []), c)
try_receive_at (x ∷ xs) c = ((some x, front c.send_waiters), pop xs c)

unfoldable pub try_receive : {A : Type 0} → Channel A → (Option A × List ℕ) × Channel A
unfolding try_receive_at
try_receive c = try_receive_at c.queue c

-- `absolute_channel_receive`: 0 where the channel is closed and empty.
abbrev pub value_or_zero : Option ℕ → ℕ
value_or_zero none = 0
value_or_zero (some val) = val

-- `absolute_channel_close`, with the senders and the receivers that it resumes.
unfoldable pub close : {A : Type 0} → Channel A → (List ℕ × List ℕ) × Channel A
close c = (
  (c.send_waiters, c.receive_waiters),
  record c { closed = true; send_waiters = []; receive_waiters = [] },
)

unfoldable pub count : {A : Type 0} → Channel A → ℕ
count c = length c.queue

-- The functions of a transfer channel that differ: a null capsule is refused, an answer without a
-- capsule is null, and the capsules that are left are destroyed.
unfoldable pub transfer_send : Caller → ℕ → Channel ℕ → Round (Channel ℕ) Bool
unfolding send
transfer_send caller capsule c = if capsule == 0 then returns false c [] else send caller capsule c

unfoldable pub transfer_try_send : ℕ → Channel ℕ → (Bool × List ℕ) × Channel ℕ
unfolding try_send
transfer_try_send capsule c = if capsule == 0 then ((false, []), c) else try_send capsule c

abbrev pub null_answer : Round (Channel ℕ) (Option ℕ) → Round (Channel ℕ) ℕ
null_answer (returns answer c tasks) = returns (value_or_zero answer) c tasks
null_answer (waits c) = waits c

-- A round of `absolute_transfer_channel_receive`.
unfoldable pub transfer_receive : Caller → Channel ℕ → Round (Channel ℕ) ℕ
unfolding receive
transfer_receive caller c = null_answer (receive caller c)

unfoldable pub transfer_try_receive : Channel ℕ → (ℕ × List ℕ) × Channel ℕ
unfolding try_receive
transfer_try_receive c =
    let ((answer, tasks), c') = try_receive c in ((value_or_zero answer, tasks), c')

-- The capsules that `absolute_transfer_channel_destroy` destroys.
unfoldable pub transfer_destroy : Channel ℕ → List ℕ
transfer_destroy c = c.queue
