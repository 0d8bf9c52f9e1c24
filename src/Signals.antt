-- ===== src/Signals.antt =====
-- usecase/signal.go: the store of signals, with the goroutines that wait in `Wait` as its tickets.
pub mod Channels
pub mod Delivery
pub mod Draining
use antflow_server.Base.{
  ℕ, suc, ◌+◌, Bool, true, false, not, ◌&&◌, ◌||◌, Option, none, some, List, [], ◌∷◌, String,
  str_eq, ◌==◌, find, delete, exists, select, if◌then◌else◌,
}
use antflow_server.Domain.{Bytes, Err, canceled, signal_timeout, Result, ok, err}

pub record SignalKey : Type 0 where
  pub execution_id : String
  pub name : String

abbrev pub key_eq : SignalKey → SignalKey → Bool
key_eq j k = str_eq j.execution_id k.execution_id && str_eq j.name k.name

-- A channel of capacity 1: its buffer, and whether it is closed.
pub record Channel : Type 0 where
  pub buffer : Option Bytes
  pub closed : Bool

pub record Waiter : Type 0 where
  pub key : SignalKey
  pub ch : ℕ

pub record Pending : Type 0 where
  pub key : SignalKey
  pub payload : Bytes

-- The maps of the source as lists with one row for a key; the channels by their numbers.
pub record SignalStore : Type 0 where
  pub waiters : List Waiter
  pub pending : List Pending
  pub channels : ℕ → Channel
  pub next_channel : ℕ

abbrev pub open_channel : Channel
open_channel = record { buffer = none; closed = false }

unfoldable pub new_signal_store : SignalStore
new_signal_store = record {
  waiters = [];
  pending = [];
  channels = λ c. open_channel;
  next_channel = 0;
}

abbrev pub waits_on : SignalKey → Waiter → Bool
waits_on k x = key_eq x.key k

abbrev pub pends_on : SignalKey → Pending → Bool
pends_on k x = key_eq x.key k

-- `s.waiters[key]` and `s.pending[key]`
abbrev pub waiter_of : SignalKey → SignalStore → Option Waiter
waiter_of k s = find (waits_on k) s.waiters

abbrev pub pending_of : SignalKey → SignalStore → Option Pending
pending_of k s = find (pends_on k) s.pending

abbrev pub set_channel : ℕ → Channel → (ℕ → Channel) → ℕ → Channel
set_channel c v f x = if x == c then v else f x

abbrev pub delete_waiter : SignalKey → SignalStore → SignalStore
delete_waiter k s = record s { waiters = delete (waits_on k) s.waiters }

abbrev pub put_pending : SignalKey → Bytes → SignalStore → SignalStore
put_pending k p s = record s {
  pending = record { key = k; payload = p } ∷ delete (pends_on k) s.pending;
}

abbrev is_full : Option Bytes → Bool
is_full none = false
is_full (some p) = true

-- The select of `Send`: a channel with room takes the payload, else the pending buffer does.
send_to : Option Waiter → SignalKey → Bytes → SignalStore → Bool × SignalStore
send_to none k p s = (false, put_pending k p s)
send_to (some x) k p s =
    let ch = s.channels x.ch in
    if is_full ch.buffer then (false, put_pending k p s) else (
      true,
      delete_waiter k
          (record s { channels = set_channel x.ch (record ch { buffer = some p }) s.channels }),
    )

unfoldable pub send : SignalKey → Bytes → SignalStore → Bool × SignalStore
unfolding send_to
send k p s = send_to (waiter_of k s) k p s

-- `Wait` up to its select: a payload at once, or the channel on which the goroutine blocks.
pub data Begun : Type 0 where
  ready : Bytes → Begun
  blocked : ℕ → Begun

unfoldable pub wait_at : Option Pending → SignalKey → SignalStore → Begun × SignalStore
wait_at (some x) k s = (ready x.payload, record s { pending = delete (pends_on k) s.pending })
wait_at none k s = (
  blocked s.next_channel,
  record s {
    waiters = record { key = k; ch = s.next_channel } ∷ delete (waits_on k) s.waiters;
    channels = set_channel s.next_channel open_channel s.channels;
    next_channel = s.next_channel + 1;
  },
)

unfoldable pub wait_begin : SignalKey → SignalStore → Begun × SignalStore
unfolding wait_at
wait_begin k s = wait_at (pending_of k s) k s

-- The first case of the select of `Wait`, where it can proceed: a buffered payload is received
-- first, then a closed channel reads as `!ok`.
receive_from : Option Bytes → Bool → ℕ → SignalStore → Option (Result Bytes × SignalStore)
receive_from (some p) c n s =
    some (
      ok p,
      record s { channels = set_channel n (record { buffer = none; closed = c }) s.channels },
    )
receive_from none true n s = some (err canceled, s)
receive_from none false n s = none

unfoldable pub wait_receive : ℕ → SignalStore → Option (Result Bytes × SignalStore)
unfolding receive_from
wait_receive n s = receive_from (s.channels n).buffer (s.channels n).closed n s

-- The other two cases: the timer or the context fires.
unfoldable pub wait_timeout : SignalKey → SignalStore → Result Bytes × SignalStore
wait_timeout k s = (err (Err.wrap "signal" signal_timeout), delete_waiter k s)

unfoldable pub wait_cancelled : SignalKey → SignalStore → Result Bytes × SignalStore
wait_cancelled k s = (err canceled, delete_waiter k s)

abbrev pub of_execution : String → Waiter → Bool
of_execution id x = str_eq x.key.execution_id id

abbrev pub pending_of_execution : String → Pending → Bool
pending_of_execution id x = str_eq x.key.execution_id id

abbrev pub close_channels : List Waiter → (ℕ → Channel) → ℕ → Channel
close_channels xs f c = if exists (λ x. x.ch == c) xs then record (f c) { closed = true } else f c

unfoldable pub drain : String → SignalStore → SignalStore
drain id s = record s {
  pending = delete (pending_of_execution id) s.pending;
  waiters = delete (of_execution id) s.waiters;
  channels = close_channels (select (of_execution id) s.waiters) s.channels;
}
