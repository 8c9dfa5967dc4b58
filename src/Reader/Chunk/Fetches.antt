-- ===== src/Reader/Chunk/Fetches.antt =====
-- What the pump queues for a range, when the segment is served as it is stored.
use native.Mathlib.Nat.{div-add-mod, mod-lt}
use tdrive.Base.{
  ℕ, zero, suc, ◌+◌, ◌-◌, ◌*◌, ◌/◌, ◌%◌, ◌≤◌, ◌<◌, ◌≡◌, refl, ap, ◌∙◌, List, [], ◌∷◌, arith, Result,
  ok, err, if◌then◌else◌, length, take, drop, length-take, length-drop, ltb, leb,
}
use tdrive.Base.Division.{add_sub_one, div-mul-le, lt-div-mul}
use tdrive.Base.Slices.{slice, slice_join, drop-take, drop-drop, take-take_le}
use tdrive.Reader.Chunk.{
  ReadError, unexpected_eof, Source, ChunkPlan, plan_chunks, chunk_size, fetch, pump, ChunkReader,
  new_chunk_reader,
}
use tdrive.Reader.Chunk.Window.{chunk_size-Granule}
use tdrive.Reader.Chunk.Delivery.{queued, AllFull, pending, IsHealthy}

-- The source returns the bytes of the stored document: as many as asked for, or up to its end.
abbrev pub Serves : {A : Type 0} → Source A → List A → Type 0
Serves src stored = (offset limit : ℕ) → src offset limit ≡ ok (slice stored offset limit)

module _ {A : Type 0} (src : Source A) (plan : ChunkPlan) where
  pump_step :
      (idx rounds : ℕ) (bytes : List A)
      → fetch src plan idx ≡ ok bytes
      → pump src plan idx (suc rounds) ≡ ok bytes ∷ pump src plan (suc idx) rounds
  unfolding pump
  pump_step idx rounds bytes h =
      rw (h, pump) (ap (λ k. ok bytes ∷ pump src plan k rounds) (omega arith))

next_offset : (base i size : ℕ) → base + suc i * size + size ≡ base + suc (suc i) * size
next_offset base i size = omega arith

same_offset : (base size : ℕ) → base + 0 * size ≡ base
same_offset base size = omega arith

no_rounds : (size : ℕ) → 0 * size ≡ 0
no_rounds size = omega arith

one_more : (rounds size : ℕ) → size + rounds * size ≡ suc rounds * size
one_more rounds size = omega arith

trim_head :
    {A : Type 0} (cut : ℕ) (bytes : List A)
    → cut < length bytes
    → ◌≡◌ {A = Result ReadError (List A)}
        (if ltb 0 cut
          then (if leb (length bytes) cut then err unexpected_eof else ok (drop cut bytes))
          else ok bytes)
        (ok (drop cut bytes))
trim_head zero bytes h = refl
trim_head (suc cut) bytes h = ground arith

module _ {A : Type 0} (src : Source A) (stored : List A) (serves : Serves src stored) where
  fetch_later :
      (plan : ChunkPlan) (i : ℕ)
      → fetch src plan (suc i) ≡ ok (slice stored (plan.base + suc i * plan.size) plan.size)
  unfolding fetch
  fetch_later plan i = rw (fetch, serves (plan.base + suc i * plan.size) plan.size) (ground arith)

  fetch_first :
      (plan : ChunkPlan)
      → plan.left_cut < length (slice stored plan.base plan.size)
      → fetch src plan 0 ≡ ok (drop plan.left_cut (slice stored plan.base plan.size))
  unfolding fetch
  fetch_first plan h =
      rw (fetch, serves (plan.base + 0 * plan.size) plan.size)
        (rw (same_offset plan.base plan.size) (trim_head plan.left_cut _ h))

  pump_later :
      (plan : ChunkPlan) (rounds i : ℕ)
      → queued (pump src plan (suc i) rounds)
        ≡ slice stored (plan.base + suc i * plan.size) (rounds * plan.size)
  unfolding pump
  pump_later plan zero i = rw (no_rounds plan.size)
  pump_later plan (suc rounds) i =
      rw (pump_step src plan (suc i) rounds _ (fetch_later plan i), pump_later plan rounds (suc i))
        (slice_join stored _ _ _ _ _ (next_offset plan.base i plan.size)
          (one_more rounds plan.size))

  some_left :
      (plan : ChunkPlan) (i rounds : ℕ)
      → 0 < plan.size
      → plan.base + (i + suc rounds) * plan.size < length stored
      → 0 < length (slice stored (plan.base + suc i * plan.size) plan.size)
  some_left plan i rounds p h = omega (
    arith,
    length-take plan.size (drop (plan.base + suc i * plan.size) stored),
    length-drop (plan.base + suc i * plan.size) stored,
  )

  pump_later-AllFull :
      (plan : ChunkPlan) (rounds i : ℕ)
      → 0 < plan.size
      → plan.base + (i + rounds) * plan.size < length stored
      → AllFull (pump src plan (suc i) rounds)
  unfolding pump
  pump_later-AllFull plan zero i p h = tt
  pump_later-AllFull plan (suc rounds) i p h =
      rw (pump_step src plan (suc i) rounds _ (fetch_later plan i))
        (some_left plan i rounds p h, pump_later-AllFull plan rounds (suc i) p (omega arith))

  head_chunk :
      (plan : ChunkPlan)
      → drop plan.left_cut (slice stored plan.base plan.size)
        ≡ slice stored (plan.base + plan.left_cut) (plan.size - plan.left_cut)
  head_chunk plan = rw (
    drop-take plan.left_cut plan.size (drop plan.base stored),
    drop-drop plan.left_cut plan.base stored,
  )

  module _ (plan : ChunkPlan)
      (cut : plan.left_cut < length (slice stored plan.base plan.size)) where
    cut-lt-size : plan.left_cut < plan.size
    cut-lt-size = omega (arith, cut, length-take plan.size (drop plan.base stored))

    pump_all :
        (rounds : ℕ)
        → queued (pump src plan 0 (suc rounds))
          ≡ slice stored (plan.base + plan.left_cut) (suc rounds * plan.size - plan.left_cut)
    pump_all rounds =
        rw
          (
            pump_step src plan 0 rounds _ (fetch_first plan cut),
            pump_later plan rounds 0,
            head_chunk plan,
          )
          (slice_join stored _ _ _ _ _ (omega (arith, cut-lt-size)) (omega (arith, cut-lt-size)))

    pump_all-AllFull :
        (rounds : ℕ)
        → plan.base + rounds * plan.size < length stored
        → AllFull (pump src plan 0 (suc rounds))
    pump_all-AllFull rounds h = rw (pump_step src plan 0 rounds _ (fetch_first plan cut)) (
      omega (arith, cut, length-drop plan.left_cut (slice stored plan.base plan.size)),
      pump_later-AllFull plan rounds 0 (omega (arith, cut-lt-size)) (omega arith),
    )

    pump_all-of :
        (n rounds : ℕ)
        → n ≡ suc rounds
        → plan.base + rounds * plan.size < length stored
        → AllFull (pump src plan 0 n)
          × (queued (pump src plan 0 n)
              ≡ slice stored (plan.base + plan.left_cut) (n * plan.size - plan.left_cut))
    pump_all-of n rounds e h = rw e (pump_all-AllFull rounds h, pump_all rounds)

-- The facts of a plan for the range from start to end, both included.
record Covers (start end : ℕ) (plan : ChunkPlan) : Type 0 where
  ordered : start ≤ end
  size_pos : 0 < plan.size
  head : plan.base + plan.left_cut ≡ start
  short : plan.left_cut < plan.size
  last_chunk : plan.base + (plan.count - 1) * plan.size ≤ end
  past_end : end < plan.base + plan.count * plan.size
  some_chunks : plan.count ≡ suc (plan.count - 1)
  owed : plan.length ≡ end + 1 - start

plan_chunks-Covers :
    (start end size : ℕ) → start ≤ end → 0 < size → Covers start end (plan_chunks start end size)
unfolding plan_chunks
plan_chunks-Covers start end size h p = record {
  ordered = h;
  size_pos = p;
  head = omega (arith, div-add-mod start size);
  short = omega (arith, mod-lt start p, div-add-mod start size);
  last_chunk =
      rw (add_sub_one ((end - (start - start % size)) / size))
        (omega (arith, div-mul-le (end - (start - start % size)) size));
  past_end = omega (arith, lt-div-mul (end - (start - start % size)) size p);
  some_chunks = omega arith;
  owed = omega arith;
}

module _ {A : Type 0} (src : Source A) (stored : List A) (serves : Serves src stored) where
  module _ (start end : ℕ) (within : end < length stored) (plan : ChunkPlan)
      (c : Covers start end plan) where
    head-lt-length : plan.left_cut < length (slice stored plan.base plan.size)
    head-lt-length = omega (
      arith,
      c.head,
      c.short,
      length-take plan.size (drop plan.base stored),
      length-drop plan.base stored,
    )

    whole :
        AllFull (pump src plan 0 plan.count)
        × (queued (pump src plan 0 plan.count)
            ≡ slice stored (plan.base + plan.left_cut) (plan.count * plan.size - plan.left_cut))
    whole =
        pump_all-of src stored serves plan head-lt-length plan.count (plan.count - 1) c.some_chunks
          (omega (arith, c.last_chunk))

    queued-plan :
        queued (pump src plan 0 plan.count)
        ≡ slice stored start (plan.count * plan.size - plan.left_cut)
    queued-plan = whole.1 ∙ ap (λ k. slice stored k (plan.count * plan.size - plan.left_cut)) c.head

    reader : ChunkReader A
    reader = record { futures = pump src plan 0 plan.count; cur = []; remain = plan.length }

    pending-plan : pending reader ≡ slice stored start (end + 1 - start)
    unfolding reader
    pending-plan =
        ap (take plan.length) queued-plan
        ∙ take-take_le plan.length _ (drop start stored)
            (omega (arith, c.owed, c.past_end, c.head, c.ordered))
        ∙ ap (λ k. slice stored start k) c.owed

    plan-IsHealthy : IsHealthy reader
    unfolding reader
    plan-IsHealthy = record {
      full = whole.0;
      enough = rw queued-plan (
          omega (
            arith,
            c.owed,
            c.past_end,
            c.head,
            c.ordered,
            length-take (plan.count * plan.size - plan.left_cut) (drop start stored),
            length-drop start stored,
          ));
    }

  -- A new reader on a range of a served segment is healthy, and owes exactly the range's bytes.
  pub new_chunk_reader-pending :
      (start end : ℕ)
      → start ≤ end
      → end < length stored
      → IsHealthy (new_chunk_reader src start end)
        × (pending (new_chunk_reader src start end) ≡ slice stored start (end + 1 - start))
        × ((new_chunk_reader src start end).remain ≡ end + 1 - start)
  unfolding new_chunk_reader reader
  new_chunk_reader-pending start end h within =
      let size = chunk_size start end in
      let c =
        plan_chunks-Covers start end size h (omega (arith, (chunk_size-Granule start end).least)) in
      let plan = plan_chunks start end size in
      (plan-IsHealthy start end within plan c, pending-plan start end within plan c, c.owed)
