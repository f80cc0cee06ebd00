-- ===== src/Chat/Channel.antt =====
-- Go channels with a buffer, and the select statements that the program uses on them.
use hzchat_server.Common.{ℕ, Bool, true, false, List, [], ◌∷◌, ◌++◌, ltb, if◌then◌else◌, length}

pub record Channel {ℓ} (A : Type ℓ) : Type ℓ where
  pub queue : List A
  pub capacity : ℕ
  pub closed : Bool

pub data Sent {ℓ} (A : Type ℓ) : Type ℓ where
  sent : Channel A → Sent A
  full : Sent A
  panics : Sent A

pub data Received {ℓ} (A : Type ℓ) : Type ℓ where
  item : A → Channel A → Received A
  finished : Received A
  waits : Received A

module _ {ℓ} {A : Type ℓ} where
  -- make(chan A, capacity)
  abbrev pub make : ℕ → Channel A
  make capacity = record { queue = []; capacity = capacity; closed = false }

  -- ch <- a: full if it cannot go on at once; a send on a closed channel panics, also in a select.
  unfoldable pub send : A → Channel A → Sent A
  send a ch =
      if ch.closed
      then panics
      else if ltb (length ch.queue) ch.capacity
      then sent (record ch { queue = ch.queue ++ a ∷ [] })
      else full

  -- <-ch: a closed channel is emptied first.
  unfoldable pub receive_from : Channel A → List A → Received A
  receive_from ch [] = if ch.closed then finished else waits
  receive_from ch (a ∷ rest) = item a (record ch { queue = rest })

  unfoldable pub receive : Channel A → Received A
  unfolding receive_from
  receive ch = receive_from ch ch.queue

  -- select { case <-ch: default: close(ch) }
  unfoldable pub poll_from : Channel A → List A → Channel A
  poll_from ch [] = record ch { closed = true }
  poll_from ch (a ∷ rest) = record ch { queue = rest }

  unfoldable pub poll_or_close : Channel A → Channel A
  unfolding poll_from
  poll_or_close ch = poll_from ch ch.queue
