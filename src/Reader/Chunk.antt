-- ===== src/Reader/Chunk.antt =====
-- internal/reader/chunk.go and chunkPlan of plan.go: one range of one segment, fetched in aligned
-- chunks and handed on in order.
-- The fetches run side by side in the source, but each publishes into its own slot of a queue that
-- is filled and drained in index order; the model is that queue. After a failed fetch the context
-- is cancelled, so nothing behind it is published.
pub mod Window
pub mod Fetches
pub mod Delivery
pub mod Examples
use tdrive.Base.{
  ℕ, zero, suc, ◌+◌, ◌-◌, ◌*◌, ◌/◌, ◌%◌, Bool, true, false, ◌&&◌, Option, none, some, List, [], ◌∷◌,
  min, ltb, leb, ◌==◌, if◌then◌else◌, Result, ok, err, length, take, drop,
}

-- io.EOF, io.ErrUnexpectedEOF, and whatever else a fetch reports.
pub data ReadError : Type 0 where
  eof unexpected_eof : ReadError
  failed : ℕ → ReadError

-- `for size > 1024 && size > (end-start) { size /= 2 }`; 11 rounds are enough for 1 MiB.
unfoldable pub halve : ℕ → ℕ → ℕ → ℕ
halve zero span size = size
halve (suc fuel) span size = elim (ltb 1024 size && ltb span size) [
  | true ↦ halve fuel span (size / 2)
  | false ↦ size
]

unfoldable pub chunk_size : ℕ → ℕ → ℕ
chunk_size start end = halve 11 (end - start) (1024 * 1024)

pub record ChunkPlan : Type 0 where
  pub size : ℕ
  pub base : ℕ
  pub count : ℕ
  pub left_cut : ℕ
  pub length : ℕ

unfoldable pub plan_chunks : ℕ → ℕ → ℕ → ChunkPlan
plan_chunks start end size =
    let base = start - start % size in
    record {
      size = size;
      base = base;
      count = (end - base) / size + 1;
      left_cut = start - base;
      length = end - start + 1;
    }

-- `Chunk(ctx, offset, limit)` of one stored segment.
abbrev pub Source : Type 0 → Type 0
Source A = ℕ → ℕ → Result ReadError (List A)

module _ {A : Type 0} where
  -- The unwanted head of the first chunk is cut off.
  abbrev trim : ChunkPlan → ℕ → List A → Result ReadError (List A)
  trim plan idx bytes =
      if idx == 0 && ltb 0 plan.left_cut
      then (if leb (length bytes) plan.left_cut
          then err unexpected_eof
          else ok (drop plan.left_cut bytes))
      else ok bytes

  unfoldable pub fetch : Source A → ChunkPlan → ℕ → Result ReadError (List A)
  fetch src plan idx = elim (src (plan.base + idx * plan.size) plan.size) [
    | ok bytes ↦ trim plan idx bytes
    | err e ↦ err e
  ]

  -- The futures that `pump` publishes from chunk `idx` on, by the rounds left.
  unfoldable pub pump : Source A → ChunkPlan → ℕ → ℕ → List (Result ReadError (List A))
  pump src plan idx zero = []
  pump src plan idx (suc rounds) =
      let rest = pump src plan (idx + 1) rounds in
      elim (fetch src plan idx) [ ok bytes ↦ ok bytes ∷ rest | err e ↦ err e ∷ [] ]

pub record ChunkReader (A : Type 0) : Type 0 where
  pub futures : List (Result ReadError (List A))
  pub cur : List A
  pub remain : ℕ

-- The bytes that a `Read` copied out, the error beside them, and the reader after it.
abbrev pub Answer : Type 0 → Type 0
Answer A = (List A × Option ReadError) × ChunkReader A

module _ {A : Type 0} where
  unfoldable pub new_chunk_reader : Source A → ℕ → ℕ → ChunkReader A
  new_chunk_reader src start end =
      let plan = plan_chunks start end (chunk_size start end) in
      record { futures = pump src plan 0 plan.count; cur = []; remain = plan.length }

  -- `for len(r.cur) == 0`: the next future that holds bytes, or the error that ends the read.
  pub fill :
      List A
      → List (Result ReadError (List A))
      → Result ReadError (List A) × List (Result ReadError (List A))
  fill (x ∷ xs) futures = (ok (x ∷ xs), futures)
  fill [] [] = (err unexpected_eof, [])
  fill [] (err e ∷ futures) = (err e, futures)
  fill [] (ok [] ∷ futures) = (err unexpected_eof, futures)
  fill [] (ok (x ∷ xs) ∷ futures) = (ok (x ∷ xs), futures)

  -- The copy into a buffer of n bytes.
  pub deliver : ℕ → ℕ → List A → List (Result ReadError (List A)) → Answer A
  deliver n remain cur futures =
      let owed = if ltb remain (length cur) then take remain cur else cur in
      let left = remain - min n (length owed) in
      (
        (take n owed, if left == 0 then some eof else none),
        record { futures = futures; cur = drop n owed; remain = left },
      )

  pub answer :
      ℕ → ChunkReader A → Result ReadError (List A) × List (Result ReadError (List A)) → Answer A
  answer n r (ok cur, futures) = deliver n r.remain cur futures
  answer n r (err e, futures) = (([], some e), record r { futures = futures })

  -- A `Read` into a buffer of n bytes.
  unfoldable pub read : ℕ → ChunkReader A → Answer A
  unfolding answer deliver fill
  read n r = if r.remain == 0 then (([], some eof), r) else answer n r (fill r.cur r.futures)
