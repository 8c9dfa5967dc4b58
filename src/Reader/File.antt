-- ===== src/Reader/File.antt =====
-- internal/reader/reader.go: a segmented file as one seekable stream.
-- Offsets handed in by a caller are int64 and may be negative (ℤ); the position of an open file
-- is at least 0. The context and the tuning options, which change only timing, are left out.
pub mod Windows
pub mod Content
pub mod Seeking
pub mod Examples
use tdrive.Base.{
  ℕ, zero, suc, ◌+◌, ◌-◌, ◌*◌, ◌/◌, ◌%◌, ◌^◌, Bool, true, false, Option, none, some, List, [], ◌∷◌,
  ◌++◌, min, ltb, leb, ◌==◌, if◌then◌else◌, Result, ok, err, ◌>>=◌, length,
}
use tdrive.Base.Int.{ℤ, pos, pos_part, ltb_ℤ, leb_ℤ, ◌+ℤ◌}
use tdrive.Reader.Chunk.{ReadError, eof, Source, ChunkReader, Answer, new_chunk_reader, read}

abbrev pub initial_window : ℕ
initial_window = 2 ^ 20

abbrev pub max_window : ℕ
max_window = 2 ^ 25

pub record File (A : Type 0) : Type 0 where
  pub size : ℕ
  pub seg_size : ℕ
  pub at : ℕ
  pub cur : Option (ChunkReader A)
  pub window : ℕ

pub data OpenError : Type 0 where
  bad_segment_size negative_size : OpenError

-- `SourceFor`: the byte source of a 1-based segment index.
abbrev pub SourceFor : Type 0 → Type 0
SourceFor A = ℕ → Result ReadError (Source A)

-- One round of the loop of `Read`: it ends with bytes and an error, or goes round again.
pub data Round (A : Type 0) : Type 0 where
  done : List A → Option ReadError → File A → Round A
  again : File A → Round A

module _ {A : Type 0} where
  pub open_file : ℤ → ℤ → Result OpenError (File A)
  open_file size seg_size =
      if leb_ℤ seg_size (pos 0)
      then err bad_segment_size
      else if ltb_ℤ size (pos 0)
      then err negative_size
      else ok (record {
        size = pos_part size;
        seg_size = pos_part seg_size;
        at = 0;
        cur = none;
        window = initial_window;
      })

  -- The last offset of the window that starts at offset `seg_start` of segment `seg_idx`.
  pub window_end : File A → ℕ → ℕ → ℕ
  window_end f seg_idx seg_start =
      let base = (seg_idx - 1) * f.seg_size in
      let seg_end = min (base + f.seg_size) f.size - 1 - base in
      let windowed = seg_start + f.window - 1 in
      if ltb f.window max_window
      then (if ltb windowed seg_end then windowed else seg_end)
      else seg_end

  pub open_at : SourceFor A → File A → ℕ → Result ReadError (ChunkReader A)
  open_at source_for f p =
      let seg_idx = p / f.seg_size + 1 in
      let seg_start = p % f.seg_size in
      let end = window_end f seg_idx seg_start in
      if ltb end seg_start
      then err eof
      else do src ← source_for seg_idx; ok (new_chunk_reader src seg_start end)

  -- A window that was read to its end is closed, and the next one is twice as wide.
  abbrev finish_window : File A → File A
  finish_window f = record f {
    cur = none;
    window = if ltb f.window max_window then f.window * 2 else f.window;
  }

  -- What a round makes of a read of the open window.
  abbrev settle : File A → Answer A → Round A
  settle f ((out, some eof), r) =
      let g = finish_window (record f { at = f.at + length out }) in
      if ltb 0 (length out)
      then done out (if leb g.size g.at then some eof else none) g
      else again g
  settle f ((out, some e), r) =
      done out (some e) (record f { at = f.at + length out; cur = some r })
  settle f ((out, none), r) =
      let g = record f { at = f.at + length out; cur = some r } in
      if ltb 0 (length out) then done out none g else again g

  -- `if f.cur == nil { f.openAt(f.pos) }`
  pub window_of : SourceFor A → File A → Option (ChunkReader A) → Result ReadError (ChunkReader A)
  unfolding open_at
  window_of source_for f (some r) = ok r
  window_of source_for f none = open_at source_for f f.at

  abbrev read_window : ℕ → File A → Result ReadError (ChunkReader A) → Round A
  read_window n f (ok r) = settle f (read n r)
  read_window n f (err e) = done [] (some e) f

  pub round : SourceFor A → ℕ → File A → Round A
  round source_for n f =
      if leb f.size f.at
      then done [] (some eof) f
      else read_window n f (window_of source_for f f.cur)

  -- The loop of `Read`, with fuel for its rounds; `none` means that the fuel ran out.
  pub rounds : SourceFor A → ℕ → ℕ → File A → Option ((List A × Option ReadError) × File A)
  rounds source_for n zero f = none
  rounds source_for n (suc fuel) f = elim (round source_for n f) [
    | done out e g ↦ some ((out, e), g)
    | again g ↦ rounds source_for n fuel g
  ]

  pub read_file : SourceFor A → ℕ → ℕ → File A → Option ((List A × Option ReadError) × File A)
  read_file source_for fuel n f =
      if n == 0 then some (([], none), f) else rounds source_for n fuel f

pub data Whence : Type 0 where
  seek_start seek_current seek_end : Whence
  other : ℕ → Whence

pub data SeekError : Type 0 where
  invalid_whence negative_offset : SeekError

module _ {A : Type 0} where
  abbrev close_current : File A → File A
  close_current f = record f { cur = none }

  -- `none` stands for a `whence` that is none of the three.
  abbrev target : File A → ℤ → Whence → Option ℤ
  target f offset seek_start = some offset
  target f offset seek_current = some (pos f.at +ℤ offset)
  target f offset seek_end = some (pos f.size +ℤ offset)
  target f offset (other n) = none

  abbrev move : File A → ℕ → File A
  move f abs =
      if abs == f.at
      then record f { at = abs }
      else record (close_current f) { at = abs; window = initial_window }

  abbrev settle_at : File A → Option ℤ → Result SeekError ℕ × File A
  settle_at f none = (err invalid_whence, f)
  settle_at f (some abs) =
      if ltb_ℤ abs (pos 0)
      then (err negative_offset, f)
      else (ok (pos_part abs), move f (pos_part abs))

  pub seek : File A → ℤ → Whence → Result SeekError ℕ × File A
  seek f offset whence = settle_at f (target f offset whence)
