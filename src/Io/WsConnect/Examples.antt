-- ===== src/Io/WsConnect/Examples.antt =====
-- Answers to an attempt to connect.
use hulatang_io.Base.{◌≡◌, refl, [], ◌∷◌, ok, true}
use hulatang_io.Io.Proactor.{none_type, write_type, add_over}
use hulatang_io.Io.WsConnect.{
  error_called, timed_out, connect_error, failed, handle_write, post_connect,
}

handle_write_timed_out : handle_write (failed 10060) ≡ error_called timed_out
unfolding handle_write connect_error
handle_write_timed_out = refl

post_connect_pending :
    post_connect true (failed 997) (record { address = 1; type = none_type }) []
    ≡ ok ([], record { address = 1; type = write_type } ∷ [])
unfolding post_connect add_over
post_connect_pending = refl
