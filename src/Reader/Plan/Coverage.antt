-- ===== src/Reader/Plan/Coverage.antt =====
-- What planRanges promises: the ranges, read from their segments in order, are the bytes asked for.
use tdrive.Base.{
  ℕ, zero, suc, ◌+◌, ◌-◌, ◌*◌, ◌/◌, ◌≤◌, ◌<◌, ◌≡◌, ap, ap₂, max, min, ◌∙◌, List, [], ◌∷◌, ◌++◌,
  arith, append-nil, ok,
}
use tdrive.Base.Int.{pos}
use tdrive.Base.Slices.{slice, slice-slice, slice_join}
use tdrive.Base.Division.{div-mul-le, lt-div-mul, div-le-div}
use tdrive.Reader.Plan.{SegRange, len, seg_range, plan_loop, plan_segments, plan_ranges}

module _ {A : Type 0} where
  -- What the channel stores as the 1-based segment i of a file.
  abbrev pub segment : List A → ℕ → ℕ → List A
  segment content seg_size i = slice content ((i - 1) * seg_size) seg_size

  -- The bytes of one range, taken from its own segment.
  abbrev pub range_bytes : List A → ℕ → SegRange → List A
  range_bytes content seg_size r = slice (segment content seg_size r.index) r.start (len r)

  abbrev pub stitch : List A → ℕ → List SegRange → List A
  stitch content seg_size [] = []
  stitch content seg_size (r ∷ rs) = range_bytes content seg_size r ++ stitch content seg_size rs

module _ (start end seg s : ℕ) (seg_pos : 0 < seg) (low : s * seg ≤ end) where
  seg_range_index : (seg_range start end seg s).index - 1 ≡ s
  unfolding seg_range
  seg_range_index = omega arith

  seg_range_start : (seg_range start end seg s).start + s * seg ≡ max start (s * seg)
  unfolding seg_range
  seg_range_start = ground arith

  len-seg_range :
      start ≤ end
      → start < s * seg + seg
      → len (seg_range start end seg s) ≡ min (end + 1) (s * seg + seg) - max start (s * seg)
  unfolding seg_range
  len-seg_range h k = ground arith

  seg_range_inside :
      start ≤ end
      → start < s * seg + seg
      → (seg_range start end seg s).start + len (seg_range start end seg s) ≤ seg
  unfolding seg_range
  seg_range_inside h k = ground arith

module _ {A : Type 0} (content : List A) (start end seg : ℕ) (seg_pos : 0 < seg) where
  -- One range is the part of the file that lies in its segment.
  range_bytes-seg_range :
      (s : ℕ)
      → s * seg ≤ end
      → start ≤ end
      → start < s * seg + seg
      → range_bytes content seg (seg_range start end seg s)
        ≡ slice content (max start (s * seg)) (min (end + 1) (s * seg + seg) - max start (s * seg))
  range_bytes-seg_range s low h k =
      slice-slice content _ seg _ _ (seg_range_inside start end seg s seg_pos low h k)
      ∙ ap₂ (slice content) (offset s low) (len-seg_range start end seg s seg_pos low h k)
    where
      offset :
          (s : ℕ)
          → s * seg ≤ end
          → ((seg_range start end seg s).index - 1) * seg + (seg_range start end seg s).start
            ≡ max start (s * seg)
      offset s low =
          rw (seg_range_index start end seg s seg_pos low)
            (omega (arith, seg_range_start start end seg s seg_pos low))

  below_end : (s r : ℕ) → (s + suc r) * seg ≤ end → s * seg + seg ≤ end
  below_end s r low = grind arith

  upto :
      (s r : ℕ)
      → s * seg + seg ≤ end
      → start ≤ end
      → start < s * seg + seg
      → max start (s * seg) + (min (end + 1) (s * seg + seg) - max start (s * seg))
        ≡ max start ((s + 1) * seg)
  upto s r low h k = omega arith

  rest :
      (s r : ℕ)
      → s * seg + seg ≤ end
      → start ≤ end
      → start < s * seg + seg
      → min (end + 1) (s * seg + seg) - max start (s * seg) + (end + 1 - max start ((s + 1) * seg))
        ≡ end + 1 - max start (s * seg)
  rest s r low h k = omega arith

  -- The ranges from segment s up to the last one are the rest of the bytes asked for.
  stitch-plan_loop :
      (rounds s : ℕ)
      → (s + rounds) * seg ≤ end
      → end < (s + rounds) * seg + seg
      → start ≤ end
      → start < s * seg + seg
      → stitch content seg (plan_loop start end seg s (suc rounds))
        ≡ slice content (max start (s * seg)) (end + 1 - max start (s * seg))
  unfolding plan_loop
  stitch-plan_loop zero s low high h k =
      append-nil _ ∙ range_bytes-seg_range s (omega arith) h k ∙ ap (slice content _) (omega arith)
  stitch-plan_loop (suc rounds) s low high h k =
      ap₂ (◌++◌) (range_bytes-seg_range s (omega (arith, below_end s rounds low)) h k)
        (stitch-plan_loop rounds (s + 1) (omega arith) (omega arith) h (omega arith))
      ∙ slice_join content _ _ _ _ _ (upto s rounds (below_end s rounds low) h k)
          (rest s rounds (below_end s rounds low) h k)

  rounds_left : start ≤ end → end / seg + 1 - start / seg ≡ suc (end / seg - start / seg)
  rounds_left h = omega (arith, div-le-div start end seg seg_pos h)

  quotients : start ≤ end → (start / seg + (end / seg - start / seg)) * seg ≡ end / seg * seg
  quotients h = ap (λ (q : ℕ). q * seg) (omega (arith, div-le-div start end seg seg_pos h))

  stitch-plan_segments :
      start ≤ end
      → stitch content seg (plan_segments start end seg) ≡ slice content start (end + 1 - start)
  unfolding plan_segments
  stitch-plan_segments h = rw (rounds_left h) (
      stitch-plan_loop (end / seg - start / seg) (start / seg)
        (omega (arith, quotients h, div-mul-le end seg))
        (omega (arith, quotients h, lt-div-mul end seg seg_pos)) h (lt-div-mul start seg seg_pos)
      ∙ ap₂ (slice content) (omega (arith, div-mul-le start seg))
          (omega (arith, div-mul-le start seg)))

  -- For a positive segment size and 0 <= start <= end, planRanges succeeds, and the ranges that it
  -- returns, each read from the segment it names and joined in order, are exactly the bytes of the
  -- file from start to end, both included (cut where the file ends).
  pub plan_ranges-covers :
      start ≤ end
      → (rs : List SegRange) × (plan_ranges (pos start) (pos end) (pos seg) ≡ ok rs)
        × (stitch content seg rs ≡ slice content start (end + 1 - start))
  unfolding plan_ranges
  plan_ranges-covers h = (plan_segments start end seg, ground arith, stitch-plan_segments h)
