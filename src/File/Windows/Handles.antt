-- ===== src/File/Windows/Handles.antt =====
-- How a descriptor on Windows is given back, and what is read of a file.
use hulatang_io.Base.{
  ℕ, ◌+◌, ◌-◌, ◌<◌, ◌≡◌, refl, ap, not, List, [], ◌∷◌, ◌++◌, true, false, le→leb, gt→leb, min, none,
  some, ok, Succeeds, arith,
}
use hulatang_io.File.{returned}
use hulatang_io.File.Windows.{
  WinFile, Closed, has_impl, new_impl, closed_handle, closed_socket, socket_flag, is_socket,
  unmarked, win_file_of, win_get_fd, win_close, close_fd, win_socket, win_open, read_length,
}

-- A read asks for what lies between the place and the end of the file, and for no more than the length of the
-- buffer.
pub read_length_lem :
    (position len file_size : ℕ)
    → read_length position len file_size ≡ min len (file_size - position)
unfolding read_length
read_length_lem position len file_size = ground arith

-- A socket that `socket` has made, and a file that `open` has opened, are given back in the right way, by
-- closesocket and by CloseHandle, each with the number that the system gave; `getFd` is that number.
pub win_close-kind :
    (raw : ℕ) (f : WinFile)
    → raw < socket_flag
    → f.impl ≡ none
    → Succeeds (win_socket (returned raw) true f) (λ g.
      (win_get_fd g ≡ ok raw)
      × (win_close g ≡ ok (record { impl = none; closed = f.closed ++ closed_socket raw ∷ [] })))
      × Succeeds (win_open (returned raw) f) (λ r.
        (win_get_fd r.0 ≡ ok raw)
        × (win_close r.0
            ≡ ok (record { impl = none; closed = f.closed ++ closed_handle raw ∷ [] })))
unfolding win_socket win_open win_get_fd win_close close_fd
win_close-kind raw f small unused =
    let plain : is_socket raw ≡ false = gt→leb socket_flag raw small in
    let marked : is_socket (raw + socket_flag) ≡ true =
      le→leb socket_flag (raw + socket_flag) (omega arith) in
    let back : unmarked (raw + socket_flag) ≡ raw = omega arith in
    let same : unmarked raw ≡ raw = omega arith in
    let free : not (has_impl f) ≡ true = rw unused refl in
    (
      (
        record f { impl = some (new_impl (raw + socket_flag)) },
        rw (free, plain) refl,
        (ap ok back, rw (marked, back) refl),
      ),
      ((record f { impl = some (new_impl raw) }, none), rw free refl, (ap ok same, rw plain refl)),
    )

-- The socket of a connection that was accepted is stored without the mark: it is given back by CloseHandle.
pub win_file_of-close :
    (raw : ℕ) (closed : List Closed)
    → raw < socket_flag
    → win_close (win_file_of raw closed)
      ≡ ok (record { impl = none; closed = closed ++ closed_handle raw ∷ [] })
unfolding win_close win_file_of close_fd
win_file_of-close raw closed small = rw (gt→leb socket_flag raw small) refl
