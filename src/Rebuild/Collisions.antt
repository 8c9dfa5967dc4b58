-- ===== src/Rebuild/Collisions.antt =====
-- Names that collide: dedupePaths and dedupeFileNames of internal/indexer/indexer.go. A set of slots
-- that are taken is the list of them.
pub mod Free
pub mod Paths
pub mod Kept
pub mod Order
pub mod Followed
pub mod Examples
use tdrive.Base.{
  ℕ, zero, suc, ◌+◌, Bool, true, false, ◌&&◌, ◌||◌, Option, none, some, List, [], ◌∷◌, ◌++◌, ltb,
  ◌==◌, if◌then◌else◌, length,
}
use tdrive.Names.Path.{Text, text_eq, root, join, slash, split_path}
use tdrive.Tags.Numbers.{decimal}
use tdrive.Rebuild.Ids.{Ulid, text_lt}
use tdrive.Rebuild.Resolve.{Row}

infixl 5 ◌>>=◌
abbrev pub ◌>>=◌ {ℓ κ} : {A : Type ℓ} {B : Type κ} → Option A → (A → Option B) → Option B
none >>= f = none
some a >>= f = f a

abbrev pub is_taken : Text → List Text → Bool
is_taken slot [] = false
is_taken slot (t ∷ ts) = text_eq t slot || is_taken slot ts

-- fmt.Sprintf("%s (%d)", name, n)
abbrev pub numbered : Text → ℕ → Text
numbered name n = name ++ 32 ∷ 40 ∷ decimal n ++ 41 ∷ []

-- The numbers from `n` on, by the tries left: the first whose name has a slot that is free.
unfoldable pub numbered_free : ℕ → (Text → Text) → Text → List Text → ℕ → Option Text
numbered_free zero slot name taken n = none
numbered_free (suc tries) slot name taken n =
    let next = numbered_free tries slot name taken (suc n) in
    if is_taken (slot (numbered name n)) taken then next else some (numbered name n)

-- The name itself, where its slot is free, or else with a number from 2 on.
unfoldable pub free_name : (Text → Text) → Text → List Text → Option Text
free_name slot name taken =
    let other = numbered_free (suc (length taken)) slot name taken 2 in
    if is_taken (slot name) taken then other else some name

abbrev pub row_before : Row → Row → Bool
row_before r s =
    let depth_r = length (split_path (r.path)) in
    let depth_s = length (split_path (s.path)) in
    if depth_r == depth_s then text_lt (r.id) (s.id) else ltb depth_r depth_s

abbrev pub insert_row : Row → List Row → List Row
insert_row r [] = r ∷ []
insert_row r (s ∷ ss) =
    let rest = insert_row r ss in if row_before s r then s ∷ rest else r ∷ s ∷ ss

-- sort.Slice by depth and id.
unfoldable pub sort_rows : List Row → List Row
sort_rows [] = []
sort_rows (r ∷ rs) = insert_row r (sort_rows rs)

abbrev pub final_path : Ulid → List (Ulid × Text) → Option Text
final_path id [] = none
final_path id (f ∷ fs) = if text_eq (f.0) id then some (f.1) else final_path id fs

abbrev pub or_root_path : Option Text → Text
or_root_path none = root
or_root_path (some p) = p

abbrev pub parent_path : Option Ulid → List (Ulid × Text) → Text
parent_path none final = root
parent_path (some p) final = or_root_path (final_path p final)

abbrev pub named : Row → Text → Text → Row
named r base name = record r { name = name; path = join base name }

-- The loop of dedupePaths over the sorted rows.
unfoldable pub dedupe_from : List (Ulid × Text) → List Text → List Row → Option (List Row)
dedupe_from final taken [] = some []
dedupe_from final taken (r ∷ rs) = do
  name ← free_name (join (parent_path (r.parent_id) final)) (r.name) taken
  rest ←
      dedupe_from ((r.id, join (parent_path (r.parent_id) final) name) ∷ final)
        (join (parent_path (r.parent_id) final) name ∷ taken) rs
  some (named r (parent_path (r.parent_id) final) name ∷ rest)

unfoldable pub dedupe_paths : List Row → Option (List Row)
dedupe_paths rows = dedupe_from [] [] (sort_rows rows)
