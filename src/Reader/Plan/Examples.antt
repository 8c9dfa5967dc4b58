-- ===== src/Reader/Plan/Examples.antt =====
-- Ranges of small files.
use tdrive.Base.{ℕ, ◌≡◌, refl, List, [], ◌∷◌, arith, ok, err}
use tdrive.Base.Int.{pos, negsuc}
use tdrive.Base.Slices.{slice}
use tdrive.Reader.Plan.{
  SegRange, seg_range, plan_loop, plan_segments, plan_ranges, bad_segment_size,
}
use tdrive.Reader.Plan.Coverage.{stitch, plan_ranges-covers}

abbrev ten_bytes : List ℕ
ten_bytes = 0 ∷ 1 ∷ 2 ∷ 3 ∷ 4 ∷ 5 ∷ 6 ∷ 7 ∷ 8 ∷ 9 ∷ []

across_three :
    plan_ranges (pos 3) (pos 9) (pos 4)
    ≡ ok (
        record { index = 1; start = 3; end = 3 }
        ∷ record { index = 2; start = 0; end = 3 }
        ∷ record { index = 3; start = 0; end = 1 }
        ∷ [])
unfolding plan_ranges plan_segments plan_loop seg_range
across_three = refl

empty_file : plan_ranges (pos 0) (negsuc 0) (pos 4) ≡ ok []
unfolding plan_ranges
empty_file = refl

no_segment_size : plan_ranges (pos 0) (pos 1) (negsuc 3) ≡ err bad_segment_size
unfolding plan_ranges
no_segment_size = refl

plan_ranges-covers_example :
    (rs : List SegRange) × (plan_ranges (pos 3) (pos 9) (pos 4) ≡ ok rs)
    × (stitch ten_bytes 4 rs ≡ slice ten_bytes 3 7)
plan_ranges-covers_example = plan_ranges-covers ten_bytes 3 9 4 (omega arith) (omega arith)
