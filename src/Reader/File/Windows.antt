-- ===== src/Reader/File/Windows.antt =====
-- One round of File.Read: the window that it opens or continues, and the bytes that it hands on.
use native.Mathlib.Nat.{div-add-mod, mod-lt}
use tdrive.Base.{
  ℕ, ◌+◌, ◌-◌, ◌*◌, ◌/◌, ◌%◌, ◌≤◌, ◌<◌, ◌≡◌, refl, sym, ap, ◌∙◌, Option, none, some, List, arith,
  leb, if◌then◌else◌, ok, length, take, drop, length-take, length-drop,
}
use tdrive.Base.Division.{add_sub_one}
use tdrive.Base.Slices.{
  slice, slice-slice, drop-drop, drop-take, take-take_le, take-append_self, drop-append_self,
}
use tdrive.Reader.Chunk.{
  ReadError, eof, unexpected_eof, failed, Source, ChunkReader, new_chunk_reader, read,
}
use tdrive.Reader.Chunk.Delivery.{pending, IsHealthy, Delivers, read-Delivers}
use tdrive.Reader.Chunk.Fetches.{Serves, new_chunk_reader-pending}
use tdrive.Reader.File.{
  File, SourceFor, done, window_end, window_of, open_at, finish_window, settle, round,
}

module _ {A : Type 0} where
  -- Every segment index opens a source that serves that segment of the file.
  abbrev pub Stores : SourceFor A → List A → ℕ → Type 0
  Stores source_for content seg_size =
      (i : ℕ)
      → (src : Source A) × (source_for i ≡ ok src)
        × Serves src (slice content ((i - 1) * seg_size) seg_size)

  -- An open window owes the bytes that follow the position.
  pub record Follows (content : List A) (p : ℕ) (r : ChunkReader A) : Type 0 where
    pub healthy : IsHealthy r
    pub owes : 0 < r.remain
    pub fits : p + r.remain ≤ length content
    pub next : pending r ≡ slice content p r.remain

  abbrev pub Window : List A → ℕ → Option (ChunkReader A) → Type 0
  Window content p none = Unit
  Window content p (some r) = Follows content p r

  pub record IsReader (content : List A) (f : File A) : Type 0 where
    pub sized : f.size ≡ length content
    pub segmented : 0 < f.seg_size
    pub readahead : 0 < f.window
    pub open_window : Window content f.at f.cur

  -- A round that hands on the next bytes, and reports io.EOF exactly at the end.
  pub record HandsOn (content : List A) (n : ℕ) (f : File A) (out : List A) (e : Option ReadError)
      (g : File A) : Type 0 where
    pub some_bytes : 0 < length out
    pub fits : length out ≤ n
    pub next : out ≡ slice content f.at (length out)
    pub same_segments : g.seg_size ≡ f.seg_size
    pub same_size : g.size ≡ f.size
    pub moved : g.at ≡ f.at + length out
    pub ends : e ≡ (if leb g.size g.at then some eof else none)
    pub reader : IsReader content g

module _ {A : Type 0} {n p : ℕ} {content : List A} {r : ChunkReader A}
    (w : Follows content p r) where
  module _ {out : List A} {e : Option ReadError} {r' : ChunkReader A}
      (d : Delivers n r ((out, e), r')) where
    handed_on : out ≡ slice content p (length out)
    handed_on =
        sym (take-append_self out (pending r'))
        ∙ ap (take (length out)) (d.in_order ∙ w.next)
        ∙ take-take_le (length out) r.remain (drop p content) (omega (arith, d.counted))

    left_over : pending r' ≡ slice content (p + length out) r'.remain
    left_over =
        sym (drop-append_self out (pending r'))
        ∙ ap (drop (length out)) (d.in_order ∙ w.next)
        ∙ drop-take (length out) r.remain (drop p content)
        ∙ ap (take (r.remain - length out)) (drop-drop (length out) p content)
        ∙ ap (λ k. slice content (p + length out) k) (omega (arith, d.counted))

    Follows-after : 0 < r'.remain → Follows content (p + length out) r'
    Follows-after h = record {
      healthy = d.healthy;
      owes = h;
      fits = omega (arith, d.counted, w.fits);
      next = left_over;
    }

module _ {A : Type 0} (content : List A) (n : ℕ) (f : File A) (v : IsReader content f) where
  settle-HandsOn :
      (r : ChunkReader A) (out : List A) (e : Option ReadError) (r' : ChunkReader A)
      → Follows content f.at r
      → Delivers n r ((out, e), r')
      → (e' : Option ReadError) × (g : File A) × (settle f ((out, e), r') ≡ done out e' g)
        × HandsOn content n f out e' g
  settle-HandsOn r out none r' w d = (
    none,
    record f { at = f.at + length out; cur = some r' },
    ground (arith, d.some_bytes),
    record {
      some_bytes = d.some_bytes;
      fits = d.fits;
      next = handed_on w d;
      same_segments = refl;
      same_size = refl;
      moved = refl;
      ends = ground (arith, d.ends, d.counted, w.fits, v.sized);
      reader = record {
        sized = v.sized;
        segmented = v.segmented;
        readahead = v.readahead;
        open_window = Follows-after w d (ground (arith, d.ends));
      };
    },
  )
  settle-HandsOn r out (some eof) r' w d = (
    if leb f.size (f.at + length out) then some eof else none,
    finish_window (record f { at = f.at + length out }),
    ground (arith, d.some_bytes),
    record {
      some_bytes = d.some_bytes;
      fits = d.fits;
      next = handed_on w d;
      same_segments = refl;
      same_size = refl;
      moved = refl;
      ends = refl;
      reader = record {
        sized = v.sized;
        segmented = v.segmented;
        readahead = ground (arith, v.readahead);
        open_window = tt;
      };
    },
  )
  settle-HandsOn r out (some unexpected_eof) r' w d = absurd (ground (arith, d.ends))
  settle-HandsOn r out (some (failed k)) r' w d = absurd (ground (arith, d.ends))

  offset_split : f.at / f.seg_size * f.seg_size + f.at % f.seg_size ≡ f.at
  offset_split = omega (arith, div-add-mod f.at f.seg_size)

  abbrev last : ℕ
  last = window_end f (f.at / f.seg_size + 1) (f.at % f.seg_size)

  window_end_bounds :
      f.at < f.size
      → (f.at % f.seg_size ≤ last)
        × (last < f.seg_size)
        × (f.at / f.seg_size * f.seg_size + last < f.size)
  unfolding window_end
  window_end_bounds h =
      rw (add_sub_one (f.at / f.seg_size))
        (ground (arith, offset_split, mod-lt f.at v.segmented, v.readahead))

module _ {A : Type 0} (content : List A) (src : Source A) (base seg : ℕ) where
  segment_reader-Follows :
      (p start last : ℕ)
      → Serves src (slice content base seg)
      → base + start ≡ p
      → start ≤ last
      → last < seg
      → base + last < length content
      → Follows content p (new_chunk_reader src start last)
  segment_reader-Follows p start last serves e h inside within =
      let stored = slice content base seg in
      let (healthy, owes, remain) =
        new_chunk_reader-pending src stored serves start last h
          (omega (arith, length-take seg (drop base content), length-drop base content)) in
      record {
        healthy = healthy;
        owes = omega (arith, remain);
        fits = omega (arith, remain);
        next =
            owes
            ∙ slice-slice content base seg start (last + 1 - start) (omega arith)
            ∙ ap (λ k. slice content k (last + 1 - start)) e
            ∙ ap (slice content p) (sym remain);
      }

module _ {A : Type 0} (content : List A) (n : ℕ) (n_pos : 0 < n) (f : File A) where
  open_at-Follows :
      IsReader content f
      → {source_for : SourceFor A} → Stores source_for content f.seg_size
      → f.at < f.size
      → (r : ChunkReader A) × (open_at source_for f f.at ≡ ok r) × Follows content f.at r
  unfolding open_at
  open_at-Follows v {source_for} stores h =
      let (src, opens, serves) = stores (f.at / f.seg_size + 1) in
      let (ordered, inside, within) = window_end_bounds content n f v h in
      let start = f.at % f.seg_size in
      let end = window_end f (f.at / f.seg_size + 1) start in
      let base = (f.at / f.seg_size + 1 - 1) * f.seg_size in
      let same : base ≡ f.at / f.seg_size * f.seg_size =
        ap (λ (k : ℕ). k * f.seg_size) (add_sub_one (f.at / f.seg_size)) in
      (
        new_chunk_reader src start end,
        rw (opens) (ground arith),
        segment_reader-Follows content src base f.seg_size f.at start end serves
            (omega (arith, same, offset_split content n f v)) ordered inside
            (omega (arith, same, v.sized)),
      )

  window_of-Follows :
      IsReader content f
      → {source_for : SourceFor A} → Stores source_for content f.seg_size
      → f.at < f.size
      → (cur : Option (ChunkReader A)) → Window content f.at cur
      → (r : ChunkReader A) × (window_of source_for f cur ≡ ok r) × Follows content f.at r
  unfolding window_of
  window_of-Follows v stores h (some r) w = (r, refl, w)
  window_of-Follows v stores h none w = open_at-Follows v stores h

  -- A round of the loop ends with the next bytes.
  pub round-HandsOn :
      IsReader content f
      → {source_for : SourceFor A} → Stores source_for content f.seg_size
      → f.at < f.size
      → (out : List A) × (e : Option ReadError) × (g : File A) × (round source_for n f
          ≡ done out e g)
        × HandsOn content n f out e g
  unfolding round
  round-HandsOn v {source_for} stores h =
      let (r, opens, w) = window_of-Follows v stores h f.cur v.open_window in
      let d = read-Delivers n r n_pos w.owes w.healthy in
      let (e, g, settles, done_) =
        settle-HandsOn content n f v r (read n r).0.0 (read n r).0.1 (read n r).1 w d in
      ((read n r).0.0, e, g, rw (opens) (ground (arith, settles)), done_)
