-- ===== src/File/Local/Examples.antt =====
-- A file of five bytes that is read in two pieces.
use hulatang_io.Base.{
  ℕ, ◌≡◌, refl, [], ◌∷◌, none, some, false, true, codes, ok, thrown, diverged, ◌>>=◌, Succeeds,
  arith, take, drop,
}
use hulatang_io.Buffer.{Buffer}
use hulatang_io.Buffer.Queue.{Holds}
use hulatang_io.File.{descriptor}
use hulatang_io.File.Local.{LocalFile, on_write, update_position, in_loop_read_all, seek}
use hulatang_io.File.Local.ReadAll.{no_more, piece, complete_all, IsRead, read_all_lem}

abbrev junk : ℕ → ℕ
junk i = 170

abbrev keep : Buffer → Buffer
keep b = b

abbrev empty : Buffer
empty = record { bytes = 0 ∷ 0 ∷ 0 ∷ 0 ∷ 0 ∷ 0 ∷ 0 ∷ 0 ∷ []; reader_index = 8; writer_index = 8 }

abbrev opened : LocalFile
opened = record {
  fd = record { impl = some (descriptor 5); held = 5 ∷ [] };
  watched = true;
  pos = 0;
  read_buffer = empty;
  writing = false;
  reading = false;
  reading_all = false;
  can_read = true;
  can_write = false;
  notices = [];
}

-- Without a write callback the completion of a write throws.
on_write_without : on_write 3 opened ≡ thrown
unfolding on_write update_position
on_write_without = refl

-- In the thread of the loop `seek` does not return.
seek_loops : seek 5 0 opened ≡ diverged
unfolding seek
seek_loops = refl

empty-Holds : Holds [] empty
unfolding take drop
empty-Holds = record { valid = omega arith; same = refl }

read_all_lem_example :
    Succeeds
      (in_loop_read_all junk (ok none) opened
        >>= complete_all junk keep (codes "abc" ∷ codes "de" ∷ [] ∷ []))
      (IsRead junk keep (codes "abcde") 5 opened)
read_all_lem_example =
    read_all_lem junk keep [] (codes "abc" ∷ codes "de" ∷ []) opened empty-Holds
      (piece (omega arith) (omega arith) (piece (omega arith) (omega arith) no_more)) (omega arith)
