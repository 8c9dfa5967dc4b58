-- ===== src/Reader/File/Content.antt =====
-- What a client of File reads: the stored bytes, in order.
use tdrive.Base.{
  ℕ, zero, suc, ◌+◌, ◌-◌, ◌≤◌, ◌<◌, ◌≡◌, refl, sym, ap, ◌∙◌, Option, none, some, false, List, ◌++◌,
  arith, leb, ◌==◌, if◌then◌else◌, length, drop, length-drop, inl, inr, Bool-cases, leb→le, ap₂,
  subst, take-append-drop,
}
use mathlib.Core.Option
use tdrive.Base.Slices.{slice, drop-drop, take_all}
use tdrive.Reader.Chunk.{ReadError, eof}
use tdrive.Reader.File.{File, SourceFor, rounds, read_file}
use tdrive.Reader.File.Windows.{Stores, IsReader, HandsOn, round-HandsOn}

-- `Read` into a buffer of n > 0 bytes, at a position before the end of a file whose segments are
-- served as stored, needs one round: it copies at least one byte and at most n, which are the bytes
-- of the file from the position on; it moves the position by their number; it reports io.EOF exactly
-- when the position reaches the size; and it leaves a reader for which the same holds, whatever
-- window, segment or readahead it was in.
pub read_file-HandsOn :
    {A : Type 0} (content : List A) (n fuel : ℕ) (f : File A) (source_for : SourceFor A)
    → 0 < n
    → IsReader content f
    → Stores source_for content f.seg_size
    → f.at < f.size
    → (out : List A) × (e : Option ReadError) × (g : File A) × (read_file source_for (suc fuel) n f
        ≡ some ((out, e), g))
      × HandsOn content n f out e g
unfolding read_file rounds
read_file-HandsOn content n fuel f source_for n_pos v stores h =
    let (out, e, g, ends, hands) = round-HandsOn content n n_pos f v stores h in
    (out, e, g, rw (positive n n_pos) (rw (rounds, ends) refl), hands)
  where
    positive : (n : ℕ) → 0 < n → (n == 0) ≡ false
    positive n p = ground arith

module _ {A : Type 0} (source_for : SourceFor A) (n : ℕ) where
  -- A client that reads until io.EOF, with a buffer of n bytes.
  abbrev keep_reading :
      Option ((List A × Option ReadError) × File A) → (File A → Option (List A)) → Option (List A)
  keep_reading none go = none
  keep_reading (some ((out, some eof), g)) go = some out
  keep_reading (some ((out, some e), g)) go = none
  keep_reading (some ((out, none), g)) go = Option.map (λ rest. out ++ rest) (go g)

  unfoldable pub read_all : ℕ → File A → Option (List A)
  read_all zero f = none
  read_all (suc fuel) f = keep_reading (read_file source_for 1 n f) (read_all fuel)

  read_on :
      (content : List A) (f g : File A) (out : List A) (e : Option ReadError)
      (go : File A → Option (List A))
      → IsReader content f
      → HandsOn content n f out e g
      → (g.at < g.size → go g ≡ some (drop g.at content))
      → keep_reading (some ((out, e), g)) go ≡ some (drop f.at content)
  read_on content f g out e go v d rest = elim (Bool-cases (leb g.size g.at)) [
    | inl over ↦
        subst
          (λ (x : Option ReadError).
            keep_reading (some ((out, x), g)) go ≡ some (drop f.at content))
          (sym (d.ends ∙ ap (λ b. if b then some eof else none) over))
          (ap some (
            d.next
            ∙ take_all (length out) (drop f.at content) (
                omega (
                  arith,
                  length-drop f.at content,
                  leb→le g.size g.at over,
                  d.moved,
                  d.same_size,
                  v.sized,
                ))))
    | inr more ↦
        subst
          (λ (x : Option ReadError).
            keep_reading (some ((out, x), g)) go ≡ some (drop f.at content))
          (sym (d.ends ∙ ap (λ b. if b then some eof else none) more))
          (rw (rest (ground arith)) (ap some (joined d.next d.moved)))
  ]
    where
      joined :
          out ≡ slice content f.at (length out)
          → g.at ≡ f.at + length out
          → out ++ drop g.at content ≡ drop f.at content
      joined p q =
          ap₂ (◌++◌) p (ap (λ k. drop k content) q ∙ sym (drop-drop (length out) f.at content))
          ∙ take-append-drop (length out) (drop f.at content)

  -- Reading until io.EOF from a position before the end yields the rest of the file, for every
  -- buffer size n > 0 and every segment size: no byte is lost, repeated or out of order, and as
  -- many reads as bytes are left are enough.
  pub read_all-content :
      (content : List A) (fuel : ℕ) (f : File A)
      → 0 < n
      → IsReader content f
      → Stores source_for content f.seg_size
      → f.at < f.size
      → f.size - f.at ≤ fuel
      → read_all fuel f ≡ some (drop f.at content)
  unfolding read_all
  read_all-content content zero f n_pos v stores h enough = absurd (omega arith)
  read_all-content content (suc fuel) f n_pos v stores h enough =
      let (out, e, g, ends, d) = read_file-HandsOn content n 0 f source_for n_pos v stores h in
      rw ends (
        read_on content f g out e (read_all fuel) v d λ more.
          read_all-content content fuel g n_pos d.reader
            (subst (Stores source_for content) (sym d.same_segments) stores) more
            (omega (arith, d.moved, d.same_size, d.some_bytes)))
