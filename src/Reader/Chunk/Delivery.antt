-- ===== src/Reader/Chunk/Delivery.antt =====
-- What chunkReader.Read hands on: the bytes of the queue, in order, none lost and none twice.
use tdrive.Base.{
  ℕ, ◌+◌, ◌-◌, ◌≤◌, ◌<◌, ◌≡◌, refl, sym, ap, ap₂, ◌∙◌, none, some, List, [], ◌∷◌, ◌++◌, min, arith,
  ltb, ltb→lt, inl, inr, ◌==◌, if◌then◌else◌, Result, ok, err, length, take, drop, length-append,
  length-take, length-drop, Bool-cases,
}
use tdrive.Base.Slices.{
  take-add, take_clip, drop_clip, take-append_le, drop-append_le, take-take_le,
}
use tdrive.Reader.Chunk.{ReadError, eof, ChunkReader, Answer, fill, deliver, answer, read}

module _ {A : Type 0} where
  -- The bytes of the chunks that are queued.
  abbrev pub queued : List (Result ReadError (List A)) → List A
  queued [] = []
  queued (ok bytes ∷ futures) = bytes ++ queued futures
  queued (err e ∷ futures) = []

  -- No fetch failed or came back empty.
  abbrev pub AllFull : List (Result ReadError (List A)) → Type 0
  AllFull [] = Unit
  AllFull (ok bytes ∷ futures) = (0 < length bytes) × AllFull futures
  AllFull (err e ∷ futures) = ⊥

  -- What the reader still has to hand on.
  abbrev pub pending : ChunkReader A → List A
  pending r = take r.remain (r.cur ++ queued r.futures)

  pub record IsHealthy (r : ChunkReader A) : Type 0 where
    pub full : AllFull r.futures
    pub enough : r.remain ≤ length (r.cur ++ queued r.futures)

  -- A read from r that gave `out` and `e` and left r'.
  pub record Delivers (n : ℕ) (r : ChunkReader A) (a : Answer A) : Type 0 where
    pub some_bytes : 0 < length a.0.0
    pub fits : length a.0.0 ≤ n
    pub in_order : a.0.0 ++ pending a.1 ≡ pending r
    pub counted : a.1.remain + length a.0.0 ≡ r.remain
    pub ends : a.0.1 ≡ (if a.1.remain == 0 then some eof else none)
    pub healthy : IsHealthy a.1

module _ {A : Type 0} (n remain : ℕ) (owed rest : List A) (h : length owed ≤ remain) where
  abbrev left : ℕ
  left = remain - min n (length owed)

  left_split : min n (length owed) + left ≡ remain
  left_split = omega arith

  -- What is copied and what stays behind are what was owed.
  owed_split : take n owed ++ take left (drop n owed ++ rest) ≡ take remain (owed ++ rest)
  owed_split =
      ap₂ (λ xs ys. xs ++ take left ys)
        (sym (take-append_le (min n (length owed)) owed rest (omega arith) ∙ take_clip n owed))
        (sym (
          drop-append_le (min n (length owed)) owed rest (omega arith)
          ∙ ap (λ xs. xs ++ rest) (drop_clip n owed)))
      ∙ sym (take-add (min n (length owed)) left (owed ++ rest))
      ∙ ap (λ k. take k (owed ++ rest)) left_split

  owed_enough : remain ≤ length (owed ++ rest) → left ≤ length (drop n owed ++ rest)
  owed_enough k =
      omega (arith, length-append owed rest, length-append (drop n owed) rest, length-drop n owed)

module _ {A : Type 0} (n : ℕ) (n_pos : 0 < n) (r : ChunkReader A) (open_ : 0 < r.remain) where
  -- The answer made of a non-empty chunk, after the last one is cut to what is owed.
  deliver-owed :
      (owed : List A) (queue : List (Result ReadError (List A)))
      → 0 < length owed
      → length owed ≤ r.remain
      → AllFull queue
      → take r.remain (owed ++ queued queue) ≡ pending r
      → r.remain ≤ length (owed ++ queued queue)
      → Delivers n r (
        (take n owed, if r.remain - min n (length owed) == 0 then some eof else none),
        record { futures = queue; cur = drop n owed; remain = r.remain - min n (length owed) },
      )
  deliver-owed owed queue some_owed fits full same enough = record {
    some_bytes = omega (arith, length-take n owed);
    fits = omega (arith, length-take n owed);
    in_order = owed_split n r.remain owed (queued queue) fits ∙ same;
    counted = omega (arith, length-take n owed);
    ends = refl;
    healthy = record {
      full = full;
      enough = owed_enough n r.remain owed (queued queue) fits enough;
    };
  }

  deliver-Delivers :
      (cur : List A) (queue : List (Result ReadError (List A)))
      → 0 < length cur
      → AllFull queue
      → take r.remain (cur ++ queued queue) ≡ pending r
      → r.remain ≤ length (cur ++ queued queue)
      → Delivers n r (deliver n r.remain cur queue)
  unfolding deliver
  deliver-Delivers cur queue some_cur full same enough =
      elim (Bool-cases (ltb r.remain (length cur))) [
        | inl more ↦ rw more (
            deliver-owed (take r.remain cur) queue (omega (arith, length-take r.remain cur))
              (omega (arith, length-take r.remain cur)) full
              (cut (queued queue) (ground arith) ∙ same)
              (omega (
                arith,
                length-append (take r.remain cur) (queued queue),
                length-take r.remain cur,
                ltb→lt r.remain (length cur) more,
              )))
        | inr all ↦ rw all (deliver-owed cur queue some_cur (ground arith) full same enough)
      ]
    where
      cut :
          (rest : List A)
          → r.remain ≤ length cur
          → take r.remain (take r.remain cur ++ rest) ≡ take r.remain (cur ++ rest)
      cut rest k =
          take-append_le r.remain (take r.remain cur) rest (omega (arith, length-take r.remain cur))
          ∙ take-take_le r.remain r.remain cur (omega arith)
          ∙ sym (take-append_le r.remain cur rest k)

module _ {A : Type 0} (n remain : ℕ) (n_pos : 0 < n) (open_ : 0 < remain) where
  read_at :
      (cur : List A) (futures : List (Result ReadError (List A)))
      → let r : ChunkReader A = record { futures = futures; cur = cur; remain = remain } in
        IsHealthy r → Delivers n r (answer n r (fill cur futures))
  unfolding answer fill
  read_at (x ∷ xs) futures v =
      deliver-Delivers n n_pos _ open_ (x ∷ xs) futures (omega arith) v.full refl v.enough
  read_at [] [] v = absurd (omega (arith, v.enough))
  read_at [] (err e ∷ futures) v = absurd v.full
  read_at [] (ok [] ∷ futures) v = absurd (omega (arith, v.full.0))
  read_at [] (ok (x ∷ xs) ∷ futures) v =
      deliver-Delivers n n_pos _ open_ (x ∷ xs) futures (omega arith) v.full.1 refl v.enough

-- A read into a non-empty buffer, from a reader that still owes bytes and whose fetches succeeded,
-- copies at least one byte and at most the buffer's size; these bytes are the next ones that were
-- owed and the rest is owed after it; it reports io.EOF exactly when nothing is owed any more, and
-- no other error.
pub read-Delivers :
    {A : Type 0} (n : ℕ) (r : ChunkReader A)
    → 0 < n
    → 0 < r.remain
    → IsHealthy r
    → Delivers n r (read n r)
unfolding read
read-Delivers n r n_pos open_ v = elim (Bool-cases (r.remain == 0)) [
  | inl closed ↦ absurd (ground arith)
  | inr more ↦ rw more (read_at n r.remain n_pos open_ r.cur r.futures v)
]
