-- ===== src/File/Windows/Examples.antt =====
-- Handles on Windows at fixed values.
use hulatang_io.Base.{◌-◌, ◌≡◌, refl, [], ◌∷◌, min, none, true, false, ok, arith, Succeeds}
use hulatang_io.File.{returned}
use hulatang_io.File.Windows.{
  WinFile, closed_handle, closed_socket, win_get_fd, win_close, win_socket, win_open, win_file_of,
  read_length, build_rights,
}
use hulatang_io.File.Windows.Handles.{win_close-kind, win_file_of-close, read_length_lem}

abbrev unused : WinFile
unused = record { impl = none; closed = [] }

-- Where ioctlsocket fails, nothing remembers the socket.
win_socket_leaks : win_socket (returned 5) false unused ≡ ok unused
unfolding win_socket
win_socket_leaks = refl

-- The three rights together.
build_rights_all : build_rights 7 ≡ 3758096384
unfolding build_rights
build_rights_all = refl

win_close-kind_example :
    Succeeds (win_socket (returned 5) true unused) (λ g.
      (win_get_fd g ≡ ok 5)
      × (win_close g ≡ ok (record { impl = none; closed = closed_socket 5 ∷ [] })))
    × Succeeds (win_open (returned 5) unused) (λ r.
      (win_get_fd r.0 ≡ ok 5)
      × (win_close r.0 ≡ ok (record { impl = none; closed = closed_handle 5 ∷ [] })))
win_close-kind_example = win_close-kind 5 unused (omega arith) refl

win_file_of_closed :
    win_close (win_file_of 5 []) ≡ ok (record { impl = none; closed = closed_handle 5 ∷ [] })
win_file_of_closed = win_file_of-close 5 [] (omega arith)

read_length_short : read_length 90 4096 100 ≡ min 4096 (100 - 90)
read_length_short = read_length_lem 90 4096 100
