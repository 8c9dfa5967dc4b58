-- ===== src/Reader/Chunk/Window.antt =====
-- The read granularity, and what Telegram demands of every read: it lies in one 1 MiB window.
use tdrive.Base.{
  ℕ, zero, suc, ◌+◌, ◌-◌, ◌*◌, ◌/◌, ◌%◌, ◌^◌, ◌≤◌, ◌<◌, ◌≡◌, refl, ap, ◌∙◌, ◌⊎◌, inl, inr, arith,
  true, false, ltb, ◌&&◌, Bool-cases,
}
use native.Mathlib.Nat.{pow-suc, div-add-mod, mod-lt, mul-mod_left}
use tdrive.Reader.Chunk.{halve, chunk_size, plan_chunks}

-- A size that the halving can end with.
pub record Granule (span top size : ℕ) : Type 0 where
  pub halvings : ℕ
  pub divides : size * 2 ^ halvings ≡ top
  pub small : (size ≡ 1024) ⊎ (size ≤ span)
  pub least : 1024 ≤ size
  pub large : (size ≡ top) ⊎ (span < 2 * size)

module _ (fuel span size : ℕ) where
  halve_on :
      (ltb 1024 size && ltb span size) ≡ true
      → halve (suc fuel) span size ≡ halve fuel span (size / 2)
  unfolding halve
  halve_on h = rw (h, halve)

  halve_off : (ltb 1024 size && ltb span size) ≡ false → halve (suc fuel) span size ≡ size
  unfolding halve
  halve_off h = rw (h, halve)

Granule-same :
    (span size : ℕ) → 1024 ≤ size → (size ≡ 1024) ⊎ (size ≤ span) → Granule span size size
Granule-same span size l h = record {
  halvings = 0;
  divides = omega arith;
  small = h;
  least = l;
  large = inl refl;
}

twice_halving : (r k m size : ℕ) → size ≡ 2 * m → r * 2 ^ k ≡ m → r * 2 ^ suc k ≡ size
twice_halving r k m size e h = rw (pow-suc 2 k) (omega arith)

Granule-double :
    (span m size r : ℕ) → size ≡ 2 * m → span < size → Granule span m r → Granule span size r
Granule-double span m size r e h g = record {
  halvings = suc g.halvings;
  divides = twice_halving r g.halvings m size e g.divides;
  small = g.small;
  least = g.least;
  large = elim g.large [ inl p ↦ inr (omega arith) | inr p ↦ inr p ];
}

half : (m size : ℕ) → size ≡ 1024 * 2 ^ suc m → size / 2 ≡ 1024 * 2 ^ m
half m size e = omega (arith, e ∙ ap (λ (t : ℕ). 1024 * t) (pow-suc 2 m))

even : (m size : ℕ) → size ≡ 1024 * 2 ^ suc m → size ≡ 2 * (size / 2)
even m size e = omega (arith, e ∙ ap (λ (t : ℕ). 1024 * t) (pow-suc 2 m))

pow_pos : (m : ℕ) → 0 < 2 ^ m
pow_pos zero = omega arith
pow_pos (suc m) = rw (pow-suc 2 m) (omega (arith, pow_pos m))

halve-Granule :
    (m span size : ℕ) → size ≡ 1024 * 2 ^ m → Granule span size (halve (suc m) span size)
halve-Granule zero span size e =
    rw (halve_off zero span size (ground arith))
      (Granule-same span size (omega arith) (inl (omega arith)))
halve-Granule (suc m) span size e = elim (Bool-cases (ltb 1024 size && ltb span size)) [
  | inl more ↦ rw (halve_on (suc m) span size more) (
      Granule-double span (size / 2) size _ (even m size e) (ground arith)
        (halve-Granule m span (size / 2) (half m size e)))
  | inr done ↦
      rw (halve_off (suc m) span size done)
        (Granule-same span size (omega (arith, e, pow_pos (suc m))) (ground arith))
]

abbrev pub mib : ℕ
mib = 1024 * 1024

-- ChunkSize returns 1 MiB divided by a power of two, at least 1 KiB: it is 1 KiB or no more than the distance from start to end, and 1 MiB or more than half of that distance. So the
-- loop has ended by its test, and it has ended at the first size that passes.
pub chunk_size-Granule : (start end : ℕ) → Granule (end - start) mib (chunk_size start end)
unfolding chunk_size
chunk_size-Granule start end = halve-Granule 10 (end - start) mib refl

blocks : (size c i q r : ℕ) → size * c ≡ mib → i ≡ c * q + r → i * size ≡ q * mib + r * size
blocks size c i q r e h = omega (arith, ap (λ (t : ℕ). t * size) h, ap (λ (t : ℕ). q * t) e)

within_block : (size c r : ℕ) → size * c ≡ mib → r < c → r * size + size ≤ mib
within_block size c r e h = grind arith

-- A read of an aligned granule stays inside one 1 MiB window, whatever its offset.
one_window :
    (size c i : ℕ)
    → 0 < size
    → size * c ≡ mib
    → 0 < c
    → i * size / mib ≡ (i * size + size - 1) / mib
one_window size c i size_pos e c_pos = omega (
  arith,
  blocks size c i (i / c) (i % c) e (omega (arith, div-add-mod i c)),
  within_block size c (i % c) e (mod-lt i c_pos),
)

aligned : (start size idx : ℕ) → start - start % size + idx * size ≡ (start / size + idx) * size
aligned start size idx = omega (arith, div-add-mod start size)

mul-mod_self : (i size : ℕ) → i * size % size ≡ 0
mul-mod_self i size = mul-mod_left i size

-- Every chunk that planChunks plans for a range, at the size that ChunkSize picks for it, starts at
-- a multiple of that size and lies inside one 1 MiB window of the document: its first and its last
-- byte have the same offset divided by 1 MiB. This is what upload.getFile demands.
pub fetch_window :
    (start end idx : ℕ)
    → let size = chunk_size start end in
      let offset = (plan_chunks start end size).base + idx * size in
      (offset % size ≡ 0) × (offset / mib ≡ (offset + size - 1) / mib)
unfolding plan_chunks
fetch_window start end idx =
    let size = chunk_size start end in
    let g = chunk_size-Granule start end in
    let e = aligned start size idx in
    (
      rw e (mul-mod_self (start / size + idx) size),
      rw e (
          one_window size (2 ^ g.halvings) (start / size + idx) (omega (arith, g.least)) g.divides
            (pow_pos g.halvings)),
    )
