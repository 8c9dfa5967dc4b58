-- ===== src/Upload/Geometry/Examples.antt =====
-- A file of ten bytes in segments of four.
use tdrive.Base.{◌≡◌, refl, arith}
use tdrive.Base.Int.{pos}
use tdrive.Upload.Geometry.{segment_size, segment_count}
use tdrive.Upload.Geometry.Partition.{total, total-segment_count}

three_segments : segment_count (pos 10) 4 ≡ 3
unfolding segment_count
three_segments = refl

short_last : segment_size 10 4 3 ≡ 2
unfolding segment_size
short_last = refl

total-segment_count_example : total 10 4 (segment_count (pos 10) 4) ≡ 10
total-segment_count_example = total-segment_count 10 4 (omega arith)
