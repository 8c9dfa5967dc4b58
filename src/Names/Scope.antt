-- ===== src/Names/Scope.antt =====
-- internal/drive/scope.go: an account's view of one subtree of the drive.
pub mod Confinement
pub mod Listing
pub mod Returning
pub mod Quota
pub mod Examples
use tdrive.Base.{
  ℕ, ◌-◌, ◌%◌, ◌^◌, ltb, Bool, true, false, ◌&&◌, ◌||◌, Option, none, some, List, [], ◌∷◌, ◌++◌,
  ◌==◌, if◌then◌else◌, Result, ok, err, ◌>>=◌,
}
use tdrive.Base.Int.{ℤ, pos, negsuc, ltb_ℤ, leb_ℤ, ◌+ℤ◌}
use tdrive.Names.Path.{Text, PathReason, root, slash, text_eq, has_prefix, clean_path}

-- The empty path is the whole drive.
pub record Scope : Type 0 where
  pub scope_root : Text

abbrev pub whole_drive : Scope
whole_drive = record { scope_root = [] }

abbrev pub narrowed : Result PathReason Text → Scope
narrowed (err e) = whole_drive
narrowed (ok clean) = if text_eq clean root then whole_drive else record { scope_root = clean }

unfoldable pub scope_of : Bool → Text → Scope
scope_of is_admin scope_path =
    if is_admin || text_eq scope_path [] then whole_drive else narrowed (clean_path scope_path)

abbrev pub unrestricted : Scope → Bool
unrestricted s = text_eq (s.scope_root) []

abbrev pub rebase : Scope → Text → Text
rebase s clean =
    if unrestricted s
    then clean
    else if text_eq clean root
    then s.scope_root
    else s.scope_root ++ clean

unfoldable pub to_real : Scope → Text → Result PathReason Text
to_real s p = do clean ← clean_path p; ok (rebase s clean)

-- strings.TrimPrefix of a prefix that is there.
abbrev pub trim_prefix : Text → Text → Text
trim_prefix [] s = s
trim_prefix (x ∷ xs) [] = []
trim_prefix (x ∷ xs) (y ∷ ys) = trim_prefix xs ys

unfoldable pub to_visible : Scope → Text → Option Text
to_visible s real =
    if unrestricted s
    then some real
    else if text_eq real (s.scope_root)
    then some root
    else if has_prefix (s.scope_root ++ slash ∷ []) real
    then some (trim_prefix (s.scope_root) real)
    else none

abbrev pub is_shown : Option Text → Bool
is_shown none = false
is_shown (some v) = true

unfoldable pub contains : Scope → Text → Bool
contains s real = is_shown (to_visible s real)

-- An entry of a listing: its path, and everything else about it.
pub record Entry (A : Type 0) : Type 0 where
  pub path : Text
  pub about : A

module _ {A : Type 0} where
  abbrev pub shown_as : Entry A → Option Text → Option (Entry A)
  shown_as e none = none
  shown_as e (some visible) = some (record { path = visible; about = e.about })

  unfoldable pub apply : Scope → Entry A → Option (Entry A)
  apply s e = if unrestricted s then some e else shown_as e (to_visible s (e.path))

  abbrev pub keep_shown : Option (Entry A) → List (Entry A) → List (Entry A)
  keep_shown none es = es
  keep_shown (some e) es = e ∷ es

  abbrev pub apply_each : Scope → List (Entry A) → List (Entry A)
  apply_each s [] = []
  apply_each s (e ∷ es) = keep_shown (apply s e) (apply_each s es)

  unfoldable pub apply_all : Scope → List (Entry A) → List (Entry A)
  apply_all s entries = if unrestricted s then entries else apply_each s entries

pub data QuotaError : Type 0 where
  quota_exceeded : QuotaError
  lookup_failed : QuotaError

-- What UserByID answers: the account's quota, no such account, or an error.
pub data Lookup : Type 0 where
  found : ℤ → Lookup
  missing : Lookup
  broken : Lookup

-- An int64 sum wraps at 2^63.
abbrev pub wrap_int64 : ℤ → ℤ
wrap_int64 (pos n) = let m = n % 2 ^ 64 in if ltb m (2 ^ 63) then pos m else negsuc (2 ^ 64 - 1 - m)
wrap_int64 (negsuc n) =
    let m = n % 2 ^ 64 in if ltb m (2 ^ 63) then negsuc m else pos (2 ^ 64 - 1 - m)

abbrev pub within_quota : ℤ → ℤ → Option ℕ → Result {0, 0} QuotaError Unit
within_quota additional quota none = err lookup_failed
within_quota additional quota (some used) =
    if ltb_ℤ quota (wrap_int64 (pos used +ℤ additional)) then err quota_exceeded else ok tt

abbrev pub quota_of : ℤ → Option ℕ → Lookup → Result {0, 0} QuotaError Unit
quota_of additional used missing = ok tt
quota_of additional used broken = err lookup_failed
quota_of additional used (found quota) =
    if leb_ℤ quota (pos 0) then ok tt else within_quota additional quota used

-- `used` is what UsedBytesByOwner answers, when it can.
unfoldable pub check_quota : Bool → ℤ → Lookup → Option ℕ → Result {0, 0} QuotaError Unit
check_quota no_user additional lookup used =
    if no_user || leb_ℤ additional (pos 0) then ok tt else quota_of additional used lookup
