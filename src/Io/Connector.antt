-- ===== src/Io/Connector.antt =====
-- hulatang/io/Connector.cpp and hulatang/io/reactor/UnixConnectReactor.cpp: attempts to connect, and the growing delay between them. Delays are in milliseconds.
pub mod Backoff
use native.Mathlib.Nat.{pow-suc}
use hulatang_io.Base.{
  ℕ, zero, suc, ◌*◌, ◌^◌, ◌≡◌, refl, sym, ap, ◌∙◌, min, List, [], ◌∷◌, ◌++◌, append_assoc,
  append-nil, Bool, true, false, if◌then◌else◌, ltb, length, arith, Outcome, ok, assert, ◌>>=◌,
  ◌>>◌, Succeeds, Bool-cases, inl, inr,
}

pub data State : Type 0 where
  disconnected connecting connected : State

pub data Errc : Type 0 where
  timed_out connection_refused network_unreachable other_error : Errc

unfoldable pub need_to_close : Errc → Bool
need_to_close timed_out = false
need_to_close connection_refused = false
need_to_close network_unreachable = false
need_to_close other_error = true

abbrev pub init_retry_delay : ℕ
init_retry_delay = 500

abbrev pub max_retry_delay : ℕ
max_retry_delay = 30000

-- What goes out to the event loop: channels registered and cancelled, and attempts put off.
pub data Request : Type 0 where
  channel_added channel_cancelled : Request
  start_after : ℕ → Request
  new_connection : Request

pub record Connector : Type 0 where
  pub retry_delay : ℕ
  pub has_channel : Bool
  pub has_model : Bool
  pub state : State
  pub requests : List Request

-- the constructor
unfoldable pub new_connector : Connector
new_connector = record {
  retry_delay = init_retry_delay;
  has_channel = false;
  has_model = false;
  state = disconnected;
  requests = [];
}

abbrev pub request : Request → Connector → Connector
request r c = record c { requests = c.requests ++ r ∷ [] }

abbrev lesser : ℕ → ℕ → ℕ
lesser a b = if ltb a b then a else b

unfoldable pub retry : Connector → Connector
retry c = record (request (start_after c.retry_delay) c) {
  state = disconnected;
  retry_delay = lesser (c.retry_delay * 2) max_retry_delay;
}

unfoldable pub handle_error : Errc → Connector → Connector
handle_error e c =
    if need_to_close e
    then retry (record (request channel_cancelled c) { has_channel = false })
    else retry c

-- What `::connect` answers: done or under way, or an error, which the channel is told at once.
pub data Answer : Type 0 where
  pending : Answer
  refused : Errc → Answer

unfoldable pub create_connect : Answer → Connector → Connector
create_connect pending c = record c { has_model = true }
create_connect (refused e) c = record (handle_error e c) { has_model = false }

abbrev pub opened : Bool → Connector → Connector
opened true c = c
opened false c = record (request channel_added c) { has_channel = true }

abbrev with_channel : Connector → Connector
with_channel c = opened c.has_channel c

unfoldable pub connect : Answer → Connector → Connector
connect answer c =
    let c' = create_connect answer (with_channel c) in
    if c'.has_model then record c' { state = connecting } else c'

abbrev pub is_disconnected : State → Bool
is_disconnected disconnected = true
is_disconnected s = false

unfoldable pub start_in_loop : Answer → Connector → Outcome Connector
start_in_loop answer c = do assert (is_disconnected c.state); ok (connect answer c)

unfoldable pub established : Connector → Connector
established c = record (request new_connection c) { state = connected; has_channel = false }

-- `UnixConnectReactor::handleWrite`, `error` being SO_ERROR: a failure is told without its code.
unfoldable pub handle_write : ℕ → Connector → Connector
handle_write zero c = established c
handle_write (suc error) c = handle_error other_error c

-- An attempt fails at once, or when the socket becomes writable.
pub data Failure : Type 0 where
  at_once : Errc → Failure
  later : ℕ → Failure

unfoldable pub attempt : Failure → Connector → Outcome Connector
attempt (at_once e) c = start_in_loop (refused e) c
attempt (later n) c = do c' ← start_in_loop pending c; ok (handle_write (suc n) c')

-- Attempts that fail, one after the other.
unfoldable pub attempts : List Failure → Connector → Outcome Connector
attempts [] c = ok c
attempts (f ∷ fs) c = do c' ← attempt f c; attempts fs c'
