-- ===== src/Upload/Geometry/Partition.antt =====
-- The segments of a file are a partition of its bytes.
use native.Mathlib.Nat.{div-add-mod}
use tdrive.Base.{
  ℕ, zero, suc, ◌+◌, ◌-◌, ◌*◌, ◌/◌, ◌%◌, ◌≤◌, ◌<◌, ◌≡◌, ap, ◌⊎◌, inl, inr, List, arith, length,
  length-take, length-drop, drop, min,
}
use tdrive.Base.Int.{pos}
use tdrive.Base.Slices.{slice}
use tdrive.Base.Division.{add_sub_one, lt-div-mul}
use tdrive.Upload.Geometry.{segment_size, segment_count}

suc_sub_one : (n : ℕ) → suc n - 1 ≡ n
suc_sub_one n = omega arith

-- The bytes of segments 1 to n.
abbrev pub total : ℕ → ℕ → ℕ → ℕ
total size seg zero = 0
total size seg (suc n) = total size seg n + segment_size size seg (suc n)

total_lem : (size seg n : ℕ) → total size seg n ≡ min (n * seg) size
unfolding segment_size
total_lem size seg zero = omega arith
total_lem size seg (suc n) = ground (arith, total_lem size seg n)

segment_count-cases :
    (size seg : ℕ)
    → let c = segment_count (pos size) seg in
      ((c ≡ 1) × (size ≡ 0))
      ⊎ ((c ≡ size / seg) × (size % seg ≡ 0) × (0 < size))
      ⊎ ((c ≡ size / seg + 1) × (0 < size % seg))
unfolding segment_count
segment_count-cases size seg = ground arith

times : (a b c : ℕ) → a ≡ b → a * c ≡ b * c
times a b c e = ap (λ (n : ℕ). n * c) e

-- A segment count c covers the size, and one segment less does not.
pub record Fits (size seg c : ℕ) : Type 0 where
  pub covers : size ≤ c * seg
  pub needed : ((c - 1) * seg < size) ⊎ ((size ≡ 0) × (c ≡ 1))
  pub some_segment : 0 < c

pub segment_count-Fits : (size seg : ℕ) → 0 < seg → Fits size seg (segment_count (pos size) seg)
segment_count-Fits size seg h = elim (segment_count-cases size seg) [
  | inl (e, z) ↦ record { covers = omega arith; needed = inr (z, e); some_segment = omega arith }
  | inr (inl (e, r, p)) ↦ rw e (record {
    covers = omega (arith, div-add-mod size seg);
    needed =
        inl (omega (arith, div-add-mod size seg, last_one (size / seg) size seg h (exact r) p));
    some_segment = omega (arith, last_one (size / seg) size seg h (exact r) p);
  })
  | inr (inr (e, r)) ↦ rw e (record {
    covers = omega (arith, lt-div-mul size seg h);
    needed = inl (rw (add_sub_one (size / seg)) (omega (arith, div-add-mod size seg)));
    some_segment = omega arith;
  })
]
  where
    exact : size % seg ≡ 0 → size / seg * seg ≡ size
    exact r = omega (arith, div-add-mod size seg)

    last_one :
        (q size seg : ℕ)
        → 0 < seg
        → q * seg ≡ size
        → 0 < size
        → ((q - 1) * seg + seg ≡ size) × (0 < q)
    last_one zero size seg h e p = absurd (omega arith)
    last_one (suc q) size seg h e p =
        (omega (arith, times (suc q - 1) q seg (suc_sub_one q)), omega arith)

-- The sizes of the SegmentCount segments of a file add up to its size, for every positive segment
-- size, the empty file included.
pub total-segment_count :
    (size seg : ℕ) → 0 < seg → total size seg (segment_count (pos size) seg) ≡ size
total-segment_count size seg h = omega (
  arith,
  total_lem size seg (segment_count (pos size) seg),
  (segment_count-Fits size seg h).covers,
)

mul_mono : (a b c : ℕ) → a ≤ b → a * c ≤ b * c
mul_mono a b c h = grind arith

-- Of the segments of a file, each but the last is exactly one segment size long, and none is empty
-- unless the file is.
pub segment_size_full :
    (size seg i : ℕ)
    → 0 < seg
    → 0 < i
    → i ≤ segment_count (pos size) seg
    → ((segment_size size seg i ≡ seg) ⊎ (i ≡ segment_count (pos size) seg))
      × ((0 < segment_size size seg i) ⊎ (size ≡ 0))
      × (segment_size size seg i ≤ seg)
unfolding segment_size
segment_size_full size seg zero h p q = absurd (omega arith)
segment_size_full size seg (suc j) h p q =
    let b = segment_count-Fits size seg h in
    let c = segment_count (pos size) seg in
    rw (suc_sub_one j) (ground (arith, b, mul_mono j (c - 1) seg, mul_mono (suc j) (c - 1) seg))

-- SegmentSize is the length of what the reader takes for the same segment of the file's bytes.
pub segment_size-slice :
    {A : Type 0} (content : List A) (seg i : ℕ)
    → segment_size (length content) seg i ≡ length (slice content ((i - 1) * seg) seg)
unfolding segment_size
segment_size-slice content seg i =
    ground
      (arith, length-take seg (drop ((i - 1) * seg) content), length-drop ((i - 1) * seg) content)
