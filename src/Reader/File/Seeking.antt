-- ===== src/Reader/File/Seeking.antt =====
-- Opening a file and moving in it.
use tdrive.Base.{
  ℕ, ◌<◌, ◌≡◌, refl, sym, subst, ==_iff, ◌⊎◌, Option, none, some, true, false, List, arith, length,
  ok, err, ◌==◌, Bool-cases, inl, inr,
}
use tdrive.Base.Int.{ℤ, pos, negsuc, ltb_ℤ}
use tdrive.Reader.File.{
  File, Whence, SeekError, invalid_whence, negative_offset, initial_window, open_file, seek, move,
  settle_at, target,
}
use tdrive.Reader.File.Windows.{IsReader, Window}

-- A file that is opened with the size of what is stored and a positive segment size is a reader of
-- that content, at its start.
pub open_file-IsReader :
    {A : Type 0} (content : List A) (seg_size : ℕ)
    → 0 < seg_size
    → (f : File A) × (open_file (pos (length content)) (pos seg_size) ≡ ok f)
      × IsReader content f
      × (f.at ≡ 0)
      × (f.seg_size ≡ seg_size)
unfolding open_file
open_file-IsReader content seg_size h = (
  record {
    size = length content;
    seg_size = seg_size;
    at = 0;
    cur = none;
    window = initial_window;
  },
  ground arith,
  record { sized = refl; segmented = h; readahead = omega arith; open_window = tt },
  refl,
  refl,
)

at_least_zero : (k : ℕ) → ltb_ℤ (pos k) (pos 0) ≡ false
at_least_zero k = ground arith

below_zero : (k : ℕ) → ltb_ℤ (negsuc k) (pos 0) ≡ true
below_zero k = ground arith

move-IsReader :
    {A : Type 0} (content : List A) (f : File A) (abs : ℕ)
    → IsReader content f
    → IsReader content (move f abs) × ((move f abs).at ≡ abs)
move-IsReader content f abs v = elim (Bool-cases (abs == f.at)) [
  | inl e ↦ rw e (
    record {
      sized = v.sized;
      segmented = v.segmented;
      readahead = v.readahead;
      open_window = subst (λ k. Window content k f.cur) (sym ((==_iff abs f.at).0 e)) v.open_window;
    },
    refl,
  )
  | inr e ↦ rw e (
    record { sized = v.sized; segmented = v.segmented; readahead = omega arith; open_window = tt },
    refl,
  )
]

-- A seek to a place before the start, or by an unknown whence, reports an error and changes nothing.
-- Any other seek, past the end too, returns the offset that it names (from the start, the position
-- or the size) and moves there, and what is read from then on is still the stored content.
pub seek-IsReader :
    {A : Type 0} (content : List A) (f : File A) (offset : ℤ) (whence : Whence)
    → IsReader content f
    → IsReader content (seek f offset whence).1
      × (((k : ℕ) × ((seek f offset whence).0 ≡ ok k)
            × ((seek f offset whence).1.at ≡ k)
            × (target f offset whence ≡ some (pos k)))
          ⊎ ((e : SeekError) × ((seek f offset whence).0 ≡ err e) × ((seek f offset whence).1 ≡ f)))
unfolding seek
seek-IsReader content f offset whence v = arrive (target f offset whence)
  where
    arrive :
        (t : Option ℤ)
        → let s = settle_at f t in
          IsReader content s.1
          × (((k : ℕ) × (s.0 ≡ ok k) × (s.1.at ≡ k) × (t ≡ some (pos k)))
              ⊎ ((e : SeekError) × (s.0 ≡ err e) × (s.1 ≡ f)))
    arrive none = (v, inr (invalid_whence, refl, refl))
    arrive (some (pos k)) =
        let (w, e) = move-IsReader content f k v in rw (at_least_zero k) (w, inl (k, refl, e, refl))
    arrive (some (negsuc k)) = rw (below_zero k) (v, inr (negative_offset, refl, refl))
