-- ===== src/Reader/Chunk/Examples.antt =====
-- Chunks of a range.
use tdrive.Base.{ℕ, ◌+◌, ◌*◌, ◌/◌, ◌%◌, ◌-◌, ◌≡◌, refl, [], ◌∷◌, ok, arith}
use tdrive.Reader.Chunk.{halve, chunk_size, plan_chunks, ChunkReader, read}
use tdrive.Reader.Chunk.Window.{mib, fetch_window}
use tdrive.Reader.Chunk.Delivery.{Delivers, read-Delivers}

short_range : chunk_size 5000 9000 ≡ 2048
unfolding chunk_size halve
short_range = refl

two_chunks :
    plan_chunks 5000 9000 2048
    ≡ record { size = 2048; base = 4096; count = 3; left_cut = 904; length = 4001 }
unfolding plan_chunks
two_chunks = refl

fetch_window_example :
    let size = chunk_size 5000 9000 in
    let offset = (plan_chunks 5000 9000 size).base + 2 * size in
    (offset % size ≡ 0) × (offset / mib ≡ (offset + size - 1) / mib)
fetch_window_example = fetch_window 5000 9000 2

abbrev half_read : ChunkReader ℕ
half_read = record { futures = ok (3 ∷ 4 ∷ 5 ∷ []) ∷ []; cur = 2 ∷ []; remain = 3 }

read-Delivers_example : Delivers 4 half_read (read 4 half_read)
read-Delivers_example =
    read-Delivers 4 half_read (omega arith) (omega arith)
      (record { full = (omega arith, tt); enough = omega arith })
