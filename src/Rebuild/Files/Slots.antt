-- ===== src/Rebuild/Files/Slots.antt =====
-- dedupeFileNames (internal/indexer/indexer.go) gives every file a name of its own in its directory.
use mathlib.Core.List.{append_cancel_left}
use tdrive.Base.{
  ℕ, suc, ◌≡◌, refl, ap, ◌∙◌, false, Option, some, List, [], ◌∷◌, arith, length, All, Bool-cases,
  inl, inr,
}
use tdrive.Names.Path.{Text, text_eq, slash}
use tdrive.Rebuild.Ids.{Ulid, text_lt}
use tdrive.Rebuild.Collisions.{is_taken}
use tdrive.Rebuild.Collisions.Free.{free_name-total}
use tdrive.Rebuild.Files.{
  FileEntry, dir_text, file_slot, insert_file, sort_files, with_name, dedupe_files_from,
  dedupe_file_names,
}

abbrev slot_of : FileEntry → Text
slot_of f = file_slot (f.dir_id) (f.name)

abbrev AllFree : List Text → List FileEntry → Type 0
AllFree taken files = All (λ f. is_taken (slot_of f) taken ≡ false) files

-- No two files have one name in one directory.
abbrev pub Separate : List FileEntry → Type 0
Separate [] = Unit
Separate (f ∷ fs) = All (λ g. text_eq (slot_of f) (slot_of g) ≡ false) fs × Separate fs

AllFree-cons :
    (slot : Text) (taken : List Text) (files : List FileEntry)
    → AllFree (slot ∷ taken) files
    → AllFree taken files × All (λ g. text_eq slot (slot_of g) ≡ false) files
AllFree-cons slot taken [] f = (tt, tt)
AllFree-cons slot taken (r ∷ rs) (f, fs) =
    let (rest, apart) = AllFree-cons slot taken rs fs in
    ((ground (arith, f), rest), (ground (arith, f), apart))

file_slot_inj : (dir : Option Ulid) (x y : Text) → file_slot dir x ≡ file_slot dir y → x ≡ y
file_slot_inj dir x y h =
    append_cancel_left (slash ∷ []) x y
      (append_cancel_left (dir_text dir) (slash ∷ x) (slash ∷ y) h)

-- Each file is one of before, but for its name.
abbrev pub OnlyNames : List FileEntry → List FileEntry → Type 0
OnlyNames [] [] = Unit
OnlyNames (f ∷ fs) (g ∷ gs) = (g ≡ with_name f (g.name)) × OnlyNames fs gs
OnlyNames [] (g ∷ gs) = ⊥
OnlyNames (f ∷ fs) [] = ⊥

dedupe_files_from-Separate :
    (taken : List Text) (files : List FileEntry)
    → (out : List FileEntry) × (dedupe_files_from taken files ≡ some out)
      × AllFree taken out
      × Separate out
      × OnlyNames files out
unfolding dedupe_files_from
dedupe_files_from-Separate taken [] = ([], refl, tt, tt, tt)
dedupe_files_from-Separate taken (f ∷ fs) =
    let slot = file_slot (f.dir_id) in
    let (name, e, free) = free_name-total slot (file_slot_inj (f.dir_id)) (f.name) taken in
    let (out, g, frees, separate, only) = dedupe_files_from-Separate (slot name ∷ taken) fs in
    let (rest, apart) = AllFree-cons (slot name) taken out frees in
    (with_name f name ∷ out, rw (e, g) refl, (free, rest), (apart, separate), (refl, only))

length-insert_file :
    (f : FileEntry) (files : List FileEntry) → length (insert_file f files) ≡ suc (length files)
length-insert_file f [] = refl
length-insert_file f (g ∷ gs) = elim (Bool-cases (text_lt (g.id) (f.id))) [
  | inl t ↦ rw t (ap (λ (n : ℕ). suc n) (length-insert_file f gs))
  | inr t ↦ rw t refl
]

length-sort_files : (files : List FileEntry) → length (sort_files files) ≡ length files
unfolding sort_files
length-sort_files [] = refl
length-sort_files (f ∷ fs) =
    length-insert_file f (sort_files fs) ∙ ap (λ (n : ℕ). suc n) (length-sort_files fs)

length-OnlyNames : (files out : List FileEntry) → OnlyNames files out → length out ≡ length files
length-OnlyNames [] [] o = refl
length-OnlyNames (f ∷ fs) (g ∷ gs) (e, o) = ap (λ (n : ℕ). suc n) (length-OnlyNames fs gs o)
length-OnlyNames [] (g ∷ gs) o = absurd o
length-OnlyNames (f ∷ fs) [] o = absurd o

-- dedupeFileNames returns, with as many tries for a number as there are files before it, and one more.
-- No two files have one name in one directory then; there are as many files as before, and in the
-- order by id each differs from the one it was at most in its name.
pub dedupe_file_names-Separate :
    (files : List FileEntry)
    → (out : List FileEntry) × (dedupe_file_names files ≡ some out)
      × Separate out
      × OnlyNames (sort_files files) out
      × (length out ≡ length files)
unfolding dedupe_file_names
dedupe_file_names-Separate files =
    let (out, e, free, separate, only) = dedupe_files_from-Separate [] (sort_files files) in
    (out, e, separate, only, length-OnlyNames (sort_files files) out only ∙ length-sort_files files)
