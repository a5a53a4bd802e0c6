-- ===== src/File/Descriptor.antt =====
-- What a FileDescriptor makes of the system's answers.
use hulatang_io.Base.{ℕ, ◌≡◌, ◌≢◌, refl, ne→==, bit_and, none, ok, aborted, Succeeds, arith, ◌>>=◌}
use hulatang_io.File.{
  File, Answer, returned, failed, build_access, read_flag, write_flag, hold, open_file, get_fd,
  close, lseek, read_file, write_file, release, open_socket, destroy,
}

-- `open` on an object without a descriptor reports no error and leaves the object without one, whatever the
-- system answers; a descriptor that the system has opened stays with the process, and every use of the object
-- fails its assertion.
pub open_file-loses :
    (answer : Answer) (f : File)
    → f.impl ≡ none
    → Succeeds (open_file answer f) λ r.
      (r.1 ≡ none)
      × (r.0.held ≡ hold answer f.held)
      × (get_fd r.0 ≡ aborted)
      × (read_file r.0 ≡ aborted)
      × (write_file r.0 ≡ aborted)
      × (lseek r.0 ≡ aborted)
      × (close r.0 ≡ aborted)
unfolding open_file get_fd close lseek read_file write_file
open_file-loses answer f e = (
  (record f { held = hold answer f.held }, none),
  ground arith,
  (refl, refl, ground arith, ground arith, ground arith, ground arith, ground arith),
)

-- A socket is made and released again: the process holds the same descriptors as before, the object has none, and
-- its destructor does nothing more. Where the system refuses a socket the program ends.
pub open_socket-close :
    (n errno : ℕ) (f : File)
    → f.impl ≡ none
    → (Succeeds
        (open_socket (returned n) f >>= close)
        λ f'. (f'.impl ≡ none) × (f'.held ≡ f.held) × (destroy f' ≡ ok f'))
      × (open_socket (failed errno) f ≡ aborted)
unfolding open_socket close release destroy
open_socket-close n errno f e =
    ((record f { impl = none }, ground arith, (refl, refl, refl)), ground arith)

-- The access mode of `buildAccess` is in the two lowest bits.
pub build_access_lem :
    (oflag : ℕ)
    → bit_and oflag read_flag ≢ 0
    → bit_and oflag write_flag ≢ 0
    → build_access oflag ≡ 526339
unfolding build_access
build_access_lem oflag r w = rw (ne→== _ 0 r, ne→== _ 0 w) refl
