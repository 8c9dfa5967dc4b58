-- ===== src/Rebuild/Resolve/Examples.antt =====
-- A channel with a directory that has lost its parent, a cycle, and a directory below the cycle.
use tdrive.Base.{ℕ, ◌≡◌, refl, Option, none, some, List, [], ◌∷◌, map}
use tdrive.Names.Path.{join}
use tdrive.Rebuild.Ids.{Ulid}
use tdrive.Rebuild.Resolve.{
  DirRecord, Row, row_of, build_tree, recover, place, place_pass, place_one, tops_of, lowest,
  recovered_root_id,
}

abbrev dir_record : ℕ → Option Ulid → DirRecord
dir_record c parent = record { id = c ∷ []; parent_id = parent; name = c ∷ []; msg_id = c }

-- "b" has lost its parent "x", "c" is in it; "e" and "f" are in each other, and "d" is in "f".
abbrev damaged : List DirRecord
damaged =
    dir_record 98 (some (120 ∷ []))
    ∷ dir_record 99 (some (98 ∷ []))
    ∷ dir_record 100 (some (102 ∷ []))
    ∷ dir_record 101 (some (102 ∷ []))
    ∷ dir_record 102 (some (101 ∷ []))
    ∷ []

abbrev parent_in : Option (List Row) → Ulid → Option Ulid
parent_in none id = none
parent_in (some rows) id = parent_at (row_of id rows)
  where
    parent_at : Option Row → Option Ulid
    parent_at none = none
    parent_at (some r) = r.parent_id

-- "c" stays in "b".
below_lost : parent_in (build_tree recovered_root_id damaged) (99 ∷ []) ≡ some (98 ∷ [])
unfolding build_tree recover place place_pass place_one tops_of lowest join
below_lost = refl

-- "d" is only below the cycle, but the lowest: it is the one that is taken from its parent.
torn_off : parent_in (build_tree recovered_root_id damaged) (100 ∷ []) ≡ some recovered_root_id
unfolding build_tree recover place place_pass place_one tops_of lowest join
torn_off = refl

-- "b" has the id of the recovery folder, "c" has lost its parent: the folder's row takes the place of "b"'s.
abbrev disguised : List DirRecord
disguised =
    record { id = recovered_root_id; parent_id = none; name = 98 ∷ []; msg_id = 98 }
    ∷ dir_record 99 (some (120 ∷ []))
    ∷ []

abbrev ids_in : Option (List Row) → List Ulid
ids_in none = []
ids_in (some rows) = map (λ (r : Row). r.id) rows

one_row : ids_in (build_tree recovered_root_id disguised) ≡ (99 ∷ []) ∷ recovered_root_id ∷ []
unfolding build_tree recover place place_pass place_one tops_of lowest join
one_row = refl
