-- ===== src/Io/Connection.antt =====
-- hulatang/io/TCPConnection.cpp: the states of a connection, in the thread of its loop.
pub mod Life
pub mod Queued
pub mod Outgoing
pub mod Incoming
pub mod Arrival
pub mod Contexts
mod Examples
use hulatang_io.Base.{
  ℕ, List, [], ◌∷◌, ◌++◌, Bool, true, false, if◌then◌else◌, Option, Text, Outcome, ok, assert,
  ◌>>=◌, ◌>>◌,
}
use hulatang_io.Buffer.{Buffer, append}
use hulatang_io.Io.Channel.{
  Channel, Poller, Op, Event, enable_reading, enable_writing, disable_all, channel_cancel,
}

pub data State : Type 0 where
  connecting connected disconnecting disconnected : State

-- `notified` is the states in which the connection callback was called, and `tied` says whether the
-- channel keeps the connection alive.
pub record Connection : Type 0 where
  pub channel : Channel
  pub state : State
  pub tied : Bool
  pub send_buffer : Buffer
  pub recv_buffer : Buffer
  pub notified : List State

-- the constructor
abbrev pub new_connection : Channel → Buffer → Buffer → Connection
new_connection channel send_buffer recv_buffer = record {
  channel = channel;
  state = connecting;
  tied = false;
  send_buffer = send_buffer;
  recv_buffer = recv_buffer;
  notified = [];
}

abbrev pub is_connecting : State → Bool
is_connecting connecting = true
is_connecting s = false

abbrev is_connected : State → Bool
is_connected connected = true
is_connected s = false

module _ (K : Type 0) (ctl : Op → Event → K → Option K) where
  -- `if (!channel->isWriting()) channel->enableWriting();`
  unfoldable pub want_writing : Bool → Channel → Poller K → Outcome (Channel × Poller K)
  want_writing true c p = ok (c, p)
  want_writing false c p = enable_writing K ctl c p

  -- `send`: `junk` is what new storage of the buffer holds.
  unfoldable pub send : (ℕ → ℕ) → Text → ℕ → Connection → Poller K → Outcome (Connection × Poller K)
  send junk data' len conn p = do
    b ← append junk data' len conn.send_buffer
    r ← want_writing conn.channel.writing conn.channel p
    ok (record conn { send_buffer = b; channel = r.0 }, r.1)

  unfoldable pub connect_established : Connection → Poller K → Outcome (Connection × Poller K)
  connect_established conn p = do
    assert (is_connecting conn.state)
    r ← enable_reading K ctl conn.channel p
    ok (
      record conn {
        state = connected;
        tied = true;
        channel = r.0;
        notified = conn.notified ++ connected ∷ [];
      },
      r.1,
    )

  -- The first part of `connectDestroyed`, for a connection that is connected.
  unfoldable pub disconnect : Connection → Poller K → Outcome (Connection × Poller K)
  disconnect conn p =
      if is_connected conn.state
      then (disable_all K ctl conn.channel p >>= λ r. ok (
        record conn {
          state = disconnected;
          channel = r.0;
          notified = conn.notified ++ disconnected ∷ [];
        },
        r.1,
      ))
      else ok (conn, p)

  unfoldable pub connect_destroyed : Connection → Poller K → Outcome (Connection × Poller K)
  connect_destroyed conn p = do
    r ← disconnect conn p
    p' ← channel_cancel K ctl r.0.channel r.1
    ok (record r.0 { tied = false }, p')
