-- ===== src/Reader/File/Examples.antt =====
-- A file of ten bytes in segments of four.
use tdrive.Base.{ℕ, ◌-◌, ◌*◌, ◌≡◌, refl, List, [], ◌∷◌, Option, none, some, arith, ok}
use tdrive.Base.Int.{negsuc}
use tdrive.Base.Slices.{slice}
use tdrive.Reader.Chunk.{
  ReadError, halve, chunk_size, plan_chunks, fetch, pump, new_chunk_reader, read,
}
use tdrive.Reader.File.{
  File, SourceFor, seek_end, window_end, open_at, window_of, round, rounds, read_file, seek,
}
use tdrive.Reader.File.Windows.{Stores, IsReader, HandsOn}
use tdrive.Reader.File.Content.{read_file-HandsOn, read_all, read_all-content}

abbrev content : List ℕ
content = 0 ∷ 1 ∷ 2 ∷ 3 ∷ 4 ∷ 5 ∷ 6 ∷ 7 ∷ 8 ∷ 9 ∷ []

abbrev served : SourceFor ℕ
served i = ok (λ offset limit. ok (slice (slice content ((i - 1) * 4) 4) offset limit))

served-Stores : Stores served content 4
served-Stores i = (_, refl, λ offset limit. refl)

abbrev opened : File ℕ
opened = record { size = 10; seg_size = 4; at = 3; cur = none; window = 1048576 }

opened-IsReader : IsReader content opened
opened-IsReader = record {
  sized = refl;
  segmented = omega arith;
  readahead = omega arith;
  open_window = tt;
}

read_in_segments : read_all served 3 8 opened ≡ some (3 ∷ 4 ∷ 5 ∷ 6 ∷ 7 ∷ 8 ∷ 9 ∷ [])
unfolding read_all read_file rounds round window_of open_at window_end new_chunk_reader pump fetch
    plan_chunks chunk_size halve read
read_in_segments = refl

read_all-content_example : read_all served 3 7 opened ≡ some (3 ∷ 4 ∷ 5 ∷ 6 ∷ 7 ∷ 8 ∷ 9 ∷ [])
read_all-content_example =
    read_all-content served 3 content 7 opened (omega arith) opened-IsReader served-Stores
      (omega arith) (omega arith)

read_file-HandsOn_example :
    (out : List ℕ) × (e : Option ReadError) × (g : File ℕ) × (read_file served 1 2 opened
      ≡ some ((out, e), g))
    × HandsOn content 2 opened out e g
read_file-HandsOn_example =
    read_file-HandsOn content 2 0 opened served (omega arith) opened-IsReader served-Stores
      (omega arith)

seek_from_end : (seek opened (negsuc 1) seek_end).0 ≡ ok 8
unfolding seek
seek_from_end = refl
