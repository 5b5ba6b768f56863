-- ===== src/Sync/Channel/Histories.antt =====
-- Histories of a channel: calls of any callers in any order.
use absolute.Prelude.{ℕ, ◌+◌, ◌≤◌, ◌≡◌, true, false, List, [], ◌∷◌, ◌++◌, length, none, some}
use absolute.Sync.{Caller, returns, waits}
use absolute.Sync.Channel.{Channel, send, try_send, receive, try_receive, close}

module _ (A : Type 0) where
  -- A channel, the senders and receivers that were resumed and have not run since, and the values
  -- that were sent and received so far, in order.
  pub record System : Type 0 where
    pub channel : Channel A
    pub woken_senders : ℕ
    pub woken_receivers : ℕ
    pub sent : List A
    pub received : List A

  abbrev pub start : Channel A → System
  start c = record { channel = c; woken_senders = 0; woken_receivers = 0; sent = []; received = [] }

  pub data Step (s u : System) : Type 0 where
    sends :
        (caller : Caller) (again n : ℕ) (val : A) (m : Channel A) (tasks : List ℕ)
        → s.woken_senders ≡ again + n
        → again ≤ 1
        → send caller val s.channel ≡ returns true m tasks
        → u ≡ record s {
          channel = m;
          woken_senders = n;
          woken_receivers = s.woken_receivers + length tasks;
          sent = s.sent ++ val ∷ [];
        }
        → Step s u
    send_fails :
        (caller : Caller) (again n : ℕ) (val : A) (m : Channel A)
        → s.woken_senders ≡ again + n
        → again ≤ 1
        → send caller val s.channel ≡ returns false m []
        → u ≡ record s { channel = m; woken_senders = n }
        → Step s u
    sender_sleeps :
        (caller : Caller) (again n : ℕ) (val : A) (m : Channel A)
        → s.woken_senders ≡ again + n
        → again ≤ 1
        → send caller val s.channel ≡ waits m
        → u ≡ record s { channel = m; woken_senders = n }
        → Step s u
    tries_send :
        (val : A) (m : Channel A) (tasks : List ℕ)
        → try_send val s.channel ≡ ((true, tasks), m)
        → u ≡ record s {
          channel = m;
          woken_receivers = s.woken_receivers + length tasks;
          sent = s.sent ++ val ∷ [];
        }
        → Step s u
    receives :
        (caller : Caller) (again n : ℕ) (val : A) (m : Channel A) (tasks : List ℕ)
        → s.woken_receivers ≡ again + n
        → again ≤ 1
        → receive caller s.channel ≡ returns (some val) m tasks
        → u ≡ record s {
          channel = m;
          woken_receivers = n;
          woken_senders = s.woken_senders + length tasks;
          received = s.received ++ val ∷ [];
        }
        → Step s u
    receive_ends :
        (caller : Caller) (again n : ℕ) (m : Channel A)
        → s.woken_receivers ≡ again + n
        → again ≤ 1
        → receive caller s.channel ≡ returns none m []
        → u ≡ record s { channel = m; woken_receivers = n }
        → Step s u
    receiver_sleeps :
        (caller : Caller) (again n : ℕ) (m : Channel A)
        → s.woken_receivers ≡ again + n
        → again ≤ 1
        → receive caller s.channel ≡ waits m
        → u ≡ record s { channel = m; woken_receivers = n }
        → Step s u
    tries_receive :
        (val : A) (m : Channel A) (tasks : List ℕ)
        → try_receive s.channel ≡ ((some val, tasks), m)
        → u ≡ record s {
          channel = m;
          woken_senders = s.woken_senders + length tasks;
          received = s.received ++ val ∷ [];
        }
        → Step s u
    closes :
        (senders receivers : List ℕ) (m : Channel A)
        → close s.channel ≡ ((senders, receivers), m)
        → u ≡ record s {
          channel = m;
          woken_senders = s.woken_senders + length senders;
          woken_receivers = s.woken_receivers + length receivers;
        }
        → Step s u
