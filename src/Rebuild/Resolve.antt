-- ===== src/Rebuild/Resolve.antt =====
-- buildTree of internal/indexer/indexer.go: paths for the directory records, and a recovery folder
-- for those that have lost their parent. The sort of the tops does not change what is stored.
pub mod Resolution
pub mod Placing
pub mod Pending
pub mod Recovering
pub mod OneEach
pub mod Growth
pub mod Parents
pub mod Undamaged
pub mod Rescues
pub mod Outcome
pub mod Examples
use tdrive.Names.Path.Equal.{text_eq_iff, text_eq_sym}
use tdrive.Rebuild.Ids.{Ulid, text_lt}
use tdrive.Names.Path.{text_eq}
use tdrive.Base.{
  ℕ, zero, suc, ◌+◌, Bool, true, false, not, ◌&&◌, ◌||◌, Option, none, some, List, [], ◌∷◌, ◌++◌,
  ltb, ◌==◌, if◌then◌else◌, length,
}
use tdrive.Names.Path.{Text, root, join}

pub record DirRecord : Type 0 where
  pub id : Ulid
  pub parent_id : Option Ulid
  pub name : Text
  pub msg_id : ℕ

pub record Row : Type 0 where
  pub id : Ulid
  pub parent_id : Option Ulid
  pub name : Text
  pub path : Text
  pub msg_id : ℕ

abbrev pub row_of : Ulid → List Row → Option Row
row_of id [] = none
row_of id (r ∷ rs) = if text_eq (r.id) id then some r else row_of id rs

abbrev pub is_resolved : Ulid → List Row → Bool
is_resolved id [] = false
is_resolved id (r ∷ rs) = text_eq (r.id) id || is_resolved id rs

abbrev pub is_found : Ulid → List DirRecord → Bool
is_found id [] = false
is_found id (d ∷ ds) = text_eq (d.id) id || is_found id ds

-- `resolved[r.ID] = r`, also where the id has a row.
abbrev pub without_row : Ulid → List Row → List Row
without_row id [] = []
without_row id (r ∷ rs) = if text_eq (r.id) id then without_row id rs else r ∷ without_row id rs

abbrev pub put_row : Row → List Row → List Row
put_row r rows = r ∷ without_row (r.id) rows

abbrev pub row_below : DirRecord → Option Ulid → Text → Row
row_below d parent parent_path = record {
  id = d.id;
  parent_id = parent;
  name = d.name;
  path = join parent_path (d.name);
  msg_id = d.msg_id;
}

abbrev pub below_row : DirRecord → Option Row → List Row → List Row × Bool
below_row d none rows = (rows, false)
below_row d (some q) rows = (row_below d (d.parent_id) (q.path) ∷ rows, true)

abbrev pub settle : DirRecord → Option Ulid → List Row → List Row × Bool
settle d none rows = (row_below d (d.parent_id) root ∷ rows, true)
settle d (some p) rows = below_row d (row_of p rows) rows

-- The body of the loop of `place`: a record whose parent has a path gets one.
unfoldable pub place_one : DirRecord → List Row → List Row × Bool
place_one d rows = if is_resolved (d.id) rows then (rows, false) else settle d (d.parent_id) rows

abbrev pub or_progress : Bool → List Row × Bool → List Row × Bool
or_progress b (rows, c) = (rows, b || c)

unfoldable pub place_pass : List DirRecord → List Row → List Row × Bool
place_pass [] rows = (rows, false)
place_pass (d ∷ ds) rows = or_progress ((place_one d rows).1) (place_pass ds ((place_one d rows).0))

-- `for progress := true; progress; { … }`, by the passes left; `none` when they are used up.
unfoldable pub place : ℕ → List DirRecord → List Row → Option (List Row)
place zero dirs rows = none
place (suc passes) dirs rows =
    let again = place passes dirs ((place_pass dirs rows).0) in
    if (place_pass dirs rows).1 then again else some ((place_pass dirs rows).0)

abbrev pub parent_found : Option Ulid → List DirRecord → Bool
parent_found none dirs = false
parent_found (some p) dirs = is_found p dirs

-- The records that wait for no other: not resolved, and their parent is not found.
unfoldable pub tops_of : List DirRecord → List DirRecord → List Row → List DirRecord
tops_of dirs [] rows = []
tops_of dirs (d ∷ ds) rows =
    let rest = tops_of dirs ds rows in
    if is_resolved (d.id) rows || parent_found (d.parent_id) dirs then rest else d ∷ rest

abbrev pub lower : DirRecord → Option DirRecord → DirRecord
lower d none = d
lower d (some e) = if text_lt (e.id) (d.id) then e else d

-- The record of the lowest id that is not resolved.
unfoldable pub lowest : List DirRecord → List Row → Option DirRecord
lowest [] rows = none
lowest (d ∷ ds) rows =
    let rest = lowest ds rows in if is_resolved (d.id) rows then rest else some (lower d rest)

abbrev pub no_tops : List DirRecord → Bool
no_tops [] = true
no_tops (d ∷ ds) = false

infixl 10 ◌>>=ₒ◌
abbrev pub ◌>>=ₒ◌ : Option (List Row) → (List Row → Option (List Row)) → Option (List Row)
none >>=ₒ f = none
some t >>=ₒ f = f t

abbrev pub just : Option DirRecord → List DirRecord
just none = []
just (some d) = d ∷ []

-- What a round re-roots: the tops, or where there are none, one record of a cycle.
abbrev pub or_lowest : List DirRecord → Option DirRecord → List DirRecord
or_lowest [] o = just o
or_lowest (t ∷ ts) o = t ∷ ts

-- "_recovered"
abbrev pub recovered_dir : Text
recovered_dir = b'_' ∷ b'r' ∷ b'e' ∷ b'c' ∷ b'o' ∷ b'v' ∷ b'e' ∷ b'r' ∷ b'e' ∷ b'd' ∷ []

-- "00000000000000000000RECVRD"
abbrev pub recovered_root_id : Ulid
recovered_root_id =
    b'0' ∷ b'0' ∷ b'0' ∷ b'0' ∷ b'0' ∷ b'0' ∷ b'0' ∷ b'0' ∷ b'0' ∷ b'0' ∷ b'0' ∷ b'0' ∷ b'0' ∷ b'0'
    ∷ b'0' ∷ b'0' ∷ b'0' ∷ b'0' ∷ b'0' ∷ b'0' ∷ b'R' ∷ b'E' ∷ b'C' ∷ b'V' ∷ b'R' ∷ b'D' ∷ []

-- The id of the recovery folder is an argument: recovered_root_id.
module _ (recovered_id : Ulid) where
  abbrev pub recovered_root : Text
  unfolding join
  recovered_root = join root recovered_dir

  abbrev pub recovery_row : Row
  recovery_row = record {
    id = recovered_id;
    parent_id = none;
    name = recovered_dir;
    path = recovered_root;
    msg_id = 0;
  }

  abbrev pub rescue : List DirRecord → List Row → List Row
  rescue [] rows = rows
  rescue (t ∷ ts) rows = rescue ts (put_row (row_below t (some recovered_id) recovered_root) rows)

  abbrev pub with_folder : Bool → List Row → List Row
  with_folder rescued rows = if rescued then rows else put_row recovery_row rows

  -- The rounds of recovery, by the rounds left; `none` when they are used up.
  unfoldable pub recover : ℕ → List DirRecord → Bool → List Row → Option (List Row)
  recover zero dirs rescued rows = none
  recover (suc rounds) dirs rescued rows =
      let ts = or_lowest (tops_of dirs dirs rows) (lowest dirs rows) in
      let placed = place (suc (length dirs)) dirs (rescue ts (with_folder rescued rows)) in
      let again = placed >>=ₒ recover rounds dirs true in if no_tops ts then some rows else again

  -- The paths that are handed to dedupePaths, which the source calls last; `rebuild` calls it here.
  unfoldable pub build_tree : List DirRecord → Option (List Row)
  build_tree dirs = place (suc (length dirs)) dirs [] >>=ₒ recover (suc (length dirs)) dirs false
