-- ===== src/Reader/Plan/Bounds.antt =====
-- Where the ranges of planRanges lie.
use tdrive.Base.{
  ℕ, zero, suc, ◌+◌, ◌-◌, ◌*◌, ◌/◌, ◌≤◌, ◌<◌, ◌≡◌, List, [], arith, ok, All, ◌⊎◌, inl, inr,
}
use tdrive.Base.Int.{ℤ, pos, pos_part}
use tdrive.Base.Division.{add_sub_one, div-mul-le, lt-div-mul, div-le-div}
use tdrive.Reader.Plan.{SegRange, seg_range, plan_loop, plan_segments, plan_ranges}

-- A non-empty range of a segment of `seg` bytes, no further than the byte `end` of the file.
pub record InSegment (seg end : ℕ) (r : SegRange) : Type 0 where
  pub numbered : 0 < r.index
  pub ordered : r.start ≤ r.end
  pub inside : r.end < seg
  pub wanted : (r.index - 1) * seg + r.end ≤ end

module _ (start end seg : ℕ) (seg_pos : 0 < seg) (h : start ≤ end) where
  seg_range-InSegment :
      (s : ℕ)
      → s * seg ≤ end
      → start < s * seg + seg
      → InSegment seg end (seg_range start end seg s)
  unfolding seg_range
  seg_range-InSegment s low k = record {
    numbered = omega arith;
    ordered = ground arith;
    inside = ground arith;
    wanted = rw (add_sub_one s) (ground arith);
  }

  plan_loop-InSegment :
      (rounds s : ℕ)
      → (s + rounds) * seg ≤ end + seg
      → start < s * seg + seg
      → All (InSegment seg end) (plan_loop start end seg s rounds)
  unfolding plan_loop
  plan_loop-InSegment zero s low k = tt
  plan_loop-InSegment (suc rounds) s low k = (
    seg_range-InSegment s (grind arith) k,
    plan_loop-InSegment rounds (s + 1) (omega arith) (omega arith),
  )

plan_segments-InSegment :
    (start end seg : ℕ)
    → 0 < seg
    → start ≤ end
    → All (InSegment seg end) (plan_segments start end seg)
unfolding plan_segments
plan_segments-InSegment start end seg seg_pos h =
    plan_loop-InSegment start end seg seg_pos h _ _ rounds_fit (lt-div-mul start seg seg_pos)
  where
    last : start / seg + (end / seg + 1 - start / seg) ≡ end / seg + 1
    last = omega (arith, div-le-div start end seg seg_pos h)

    rounds_fit : (start / seg + (end / seg + 1 - start / seg)) * seg ≤ end + seg
    rounds_fit = rw last (omega (arith, div-mul-le end seg))

planned :
    (start end : ℤ) (seg : ℕ) (rs : List SegRange)
    → plan_ranges start end (pos seg) ≡ ok rs
    → (rs ≡ [])
      ⊎ ((0 < seg)
          × (pos_part start ≤ pos_part end)
          × (rs ≡ plan_segments (pos_part start) (pos_part end) seg))
unfolding plan_ranges
planned start end seg rs h = ground arith

-- Whatever the arguments, each range that planRanges returns is a non-empty range of one segment,
-- ends inside that segment, and reaches no byte after `end`.
pub plan_ranges-InSegment :
    (start end : ℤ) (seg : ℕ) (rs : List SegRange)
    → plan_ranges start end (pos seg) ≡ ok rs
    → All (InSegment seg (pos_part end)) rs
plan_ranges-InSegment start end seg rs h = elim (planned start end seg rs h) [
  | inl e ↦ rw e tt
  | inr (p, q, e) ↦ rw e (plan_segments-InSegment _ _ seg p q)
]
