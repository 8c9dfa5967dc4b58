-- ===== src/Upload/Geometry.antt =====
-- SegmentSize of internal/drive/upload.go and SegmentCount of internal/config/config.go.
-- Segment indices are 1-based, and callers pass no other (PutSegment refuses an index below 1).
pub mod Partition
pub mod Examples
use tdrive.Base.{
  ℕ, zero, suc, ◌+◌, ◌-◌, ◌*◌, ◌/◌, ◌%◌, min, leb, ◌==◌, if◌then◌else◌, List, [], ◌∷◌,
}
use tdrive.Base.Int.{ℤ, pos, pos_part, leb_ℤ}

unfoldable pub segment_size : ℕ → ℕ → ℕ → ℕ
segment_size file_size seg_size index =
    let start = (index - 1) * seg_size in
    if leb file_size start then 0 else min seg_size (file_size - start)

-- `seg_size` is the runtime setting, which validation keeps positive.
unfoldable pub segment_count : ℤ → ℕ → ℕ
segment_count size seg_size =
    if leb_ℤ size (pos 0)
    then 1
    else (let n = pos_part size / seg_size in if pos_part size % seg_size == 0 then n else n + 1)
