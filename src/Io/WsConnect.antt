-- ===== src/Io/WsConnect.antt =====
-- hulatang/io/proactor/WSConnectProactor.cpp: the attempt to connect on Windows. What the system answers is an
-- argument.
mod Examples
use hulatang_io.Base.{
  ℕ, List, [], ◌∷◌, ◌++◌, Bool, true, false, ◌==◌, if◌then◌else◌, Option, none, some, Outcome, ok,
  aborted, ◌>>=◌, ◌>>◌,
}
use hulatang_io.Io.Proactor.{Over, write_type, add_over}

-- The conditions of `std::errc` that the errors are turned into; any other error keeps its number.
pub data ConnectError : Type 0 where
  bad_address invalid_argument not_a_socket address_family_not_supported address_in_use network_down
        address_not_available connection_already_in_progress network_unreachable no_buffer_space
        already_connected timed_out connection_refused host_unreachable :
      ConnectError
  win32_error : ℕ → ConnectError

-- The switch of `handleWrite`, with the values of winsock2.h.
unfoldable pub connect_error : ℕ → ConnectError
connect_error err =
    if err == 10014
    then bad_address
    else if err == 10022
    then invalid_argument
    else if err == 10038
    then not_a_socket
    else if err == 10047
    then address_family_not_supported
    else if err == 10048
    then address_in_use
    else if err == 10050
    then network_down
    else if err == 10049
    then address_not_available
    else if err == 10037
    then connection_already_in_progress
    else if err == 10051
    then network_unreachable
    else if err == 10055
    then no_buffer_space
    else if err == 10056
    then already_connected
    else if err == 10060
    then timed_out
    else if err == 10061
    then connection_refused
    else if err == 10065
    then host_unreachable
    else win32_error err

-- What the channel is told.
pub data Told : Type 0 where
  write_called : Told
  error_called : ConnectError → Told

-- What GetOverlappedResultEx and ConnectEx answer: TRUE, or FALSE with the last error.
pub data Answer : Type 0 where
  succeeded : Answer
  failed : ℕ → Answer

-- `handleWrite`: FALSE without an error counts as success.
unfoldable pub handle_write : Answer → Told
handle_write succeeded = write_called
handle_write (failed err) = if err == 0 then write_called else error_called (connect_error err)

-- `handleRead`
unfoldable pub handle_read : Outcome Told
handle_read = aborted

-- `postConnect`, where WSAIoctl has given ConnectEx (`extension`): what the channel is told at once, and its list. An
-- operation that is refused is not in the list.
unfoldable pub post_connect : Bool → Answer → Over → List Over → Outcome (List Told × List Over)
post_connect false answer op over = aborted
post_connect true succeeded op over = ok ([], add_over over (record op { type = write_type }))
post_connect true (failed err) op over =
    if err == 997
    then ok ([], add_over over (record op { type = write_type }))
    else ok (error_called (win32_error err) ∷ [], over)
