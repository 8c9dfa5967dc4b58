-- ===== src/Reader/Plan.antt =====
-- internal/reader/plan.go: byte ranges of a file mapped onto byte ranges of its segments.
-- Arguments are int64 in the source and may be negative there, so they are ℤ; past the guards
-- every number is at least 0.
pub mod Coverage
pub mod Bounds
pub mod Examples
use tdrive.Base.{
  ℕ, zero, suc, ◌+◌, ◌-◌, ◌*◌, ◌/◌, Bool, List, [], ◌∷◌, ltb, if◌then◌else◌, Result, ok, err,
}
use tdrive.Base.Int.{ℤ, pos, pos_part, ltb_ℤ, leb_ℤ}

-- A byte range inside one segment; `index` is 1-based, `start` and `end` are inclusive.
pub record SegRange : Type 0 where
  pub index : ℕ
  pub start : ℕ
  pub end : ℕ

abbrev pub len : SegRange → ℕ
len r = r.end - r.start + 1

pub data PlanError : Type 0 where
  bad_segment_size negative_start : PlanError

-- The body of the loop: segment s, counted from 0.
unfoldable pub seg_range : ℕ → ℕ → ℕ → ℕ → SegRange
seg_range start end seg_size s =
    let base = s * seg_size in
    let seg_end = end - base in
    record {
      index = s + 1;
      start = if ltb start base then 0 else start - base;
      end = if ltb (seg_size - 1) seg_end then seg_size - 1 else seg_end;
    }

-- `for s := first; s <= last; s++`, by the rounds left.
pub plan_loop : ℕ → ℕ → ℕ → ℕ → ℕ → List SegRange
plan_loop start end seg_size s zero = []
plan_loop start end seg_size s (suc rounds) =
    seg_range start end seg_size s ∷ plan_loop start end seg_size (s + 1) rounds

pub plan_segments : ℕ → ℕ → ℕ → List SegRange
plan_segments start end seg_size =
    let first = start / seg_size in
    let last = end / seg_size in plan_loop start end seg_size first (last + 1 - first)

pub plan_ranges : ℤ → ℤ → ℤ → Result PlanError (List SegRange)
plan_ranges start end seg_size =
    if leb_ℤ seg_size (pos 0)
    then err bad_segment_size
    else if ltb_ℤ start (pos 0)
    then err negative_start
    else if ltb_ℤ end start
    then ok []
    else ok (plan_segments (pos_part start) (pos_part end) (pos_part seg_size))
