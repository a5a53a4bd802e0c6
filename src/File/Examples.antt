-- ===== src/File/Examples.antt =====
-- Descriptors at fixed answers.
use hulatang_io.Base.{◌≡◌, refl, [], ◌∷◌, none, aborted, ok, Succeeds, ◌>>=◌}
use hulatang_io.File.{
  File, returned, failed, open_file, open_socket, close, destroy, get_fd, read_file, write_file,
  lseek, build_access,
}
use hulatang_io.File.Descriptor.{open_file-loses, open_socket-close}

abbrev unused : File
unused = record { impl = none; held = 1 ∷ [] }

-- A file that is only written is opened for writing.
build_access_write : build_access 2 ≡ 526337
unfolding build_access
build_access_write = refl

open_file_leaks : Succeeds (open_file (returned 5) unused) λ r.
    (r.1 ≡ none)
    × (r.0.held ≡ 5 ∷ 1 ∷ [])
    × (get_fd r.0 ≡ aborted)
    × (read_file r.0 ≡ aborted)
    × (write_file r.0 ≡ aborted)
    × (lseek r.0 ≡ aborted)
    × (close r.0 ≡ aborted)
open_file_leaks = open_file-loses (returned 5) unused refl

open_socket_then_close :
    (Succeeds
      (open_socket (returned 5) unused >>= close)
      λ f'. (f'.impl ≡ none) × (f'.held ≡ 1 ∷ []) × (destroy f' ≡ ok f'))
    × (open_socket (failed 24) unused ≡ aborted)
open_socket_then_close = open_socket-close 5 24 unused refl
