-- ===== src/Access/Perms.antt =====
-- internal/database/perms.go. A permission set is a bitmask; a name on the wire is the list of its code
-- points.
pub mod Naming
pub mod Rights
pub mod Examples
use tdrive.Base.{
  ℕ, ◌+◌, ◌^◌, Bool, true, false, not, ◌&&◌, ◌||◌, List, [], ◌∷◌, ◌++◌, bit_and, bit_or, ltb, leb,
  ◌==◌, if◌then◌else◌,
}

abbrev pub Name : Type 0
Name = List ℕ

abbrev pub same_name : Name → Name → Bool
same_name [] [] = true
same_name (x ∷ xs) (y ∷ ys) = (x == y) && same_name xs ys
same_name [] (y ∷ ys) = false
same_name (x ∷ xs) [] = false

pub record PermEntry : Type 0 where
  pub perm : ℕ
  pub name : Name

abbrev pub perm_entry : ℕ → Name → PermEntry
perm_entry perm name = record { perm = perm; name = name }

abbrev pub perm_read : PermEntry
perm_read = perm_entry 1 (114 ∷ 101 ∷ 97 ∷ 100 ∷ [])

abbrev pub perm_download : PermEntry
perm_download = perm_entry 2 (100 ∷ 111 ∷ 119 ∷ 110 ∷ 108 ∷ 111 ∷ 97 ∷ 100 ∷ [])

abbrev pub perm_upload : PermEntry
perm_upload = perm_entry 4 (117 ∷ 112 ∷ 108 ∷ 111 ∷ 97 ∷ 100 ∷ [])

abbrev pub perm_uploadlocal : PermEntry
perm_uploadlocal = perm_entry 8 (117 ∷ 112 ∷ 108 ∷ 111 ∷ 97 ∷ 100 ∷ 76 ∷ 111 ∷ 99 ∷ 97 ∷ 108 ∷ [])

abbrev pub perm_remotefetch : PermEntry
perm_remotefetch =
    perm_entry 16 (114 ∷ 101 ∷ 109 ∷ 111 ∷ 116 ∷ 101 ∷ 70 ∷ 101 ∷ 116 ∷ 99 ∷ 104 ∷ [])

abbrev pub perm_mkdir : PermEntry
perm_mkdir = perm_entry 32 (109 ∷ 107 ∷ 100 ∷ 105 ∷ 114 ∷ [])

abbrev pub perm_rename : PermEntry
perm_rename = perm_entry 64 (114 ∷ 101 ∷ 110 ∷ 97 ∷ 109 ∷ 101 ∷ [])

abbrev pub perm_move : PermEntry
perm_move = perm_entry 128 (109 ∷ 111 ∷ 118 ∷ 101 ∷ [])

abbrev pub perm_delete : PermEntry
perm_delete = perm_entry 256 (100 ∷ 101 ∷ 108 ∷ 101 ∷ 116 ∷ 101 ∷ [])

abbrev pub perm_webdav : PermEntry
perm_webdav = perm_entry 512 (119 ∷ 101 ∷ 98 ∷ 100 ∷ 97 ∷ 118 ∷ [])

abbrev pub perm_stage : PermEntry
perm_stage = perm_entry 1024 (115 ∷ 116 ∷ 97 ∷ 103 ∷ 101 ∷ [])

abbrev pub perm_share : PermEntry
perm_share = perm_entry 2048 (115 ∷ 104 ∷ 97 ∷ 114 ∷ 101 ∷ [])

abbrev pub perm_plugins : PermEntry
perm_plugins = perm_entry 4096 (112 ∷ 108 ∷ 117 ∷ 103 ∷ 105 ∷ 110 ∷ 115 ∷ [])

abbrev pub perm_table : List PermEntry
perm_table =
    perm_read ∷ perm_download ∷ perm_upload ∷ perm_uploadlocal ∷ perm_remotefetch ∷ perm_mkdir
    ∷ perm_rename ∷ perm_move ∷ perm_delete ∷ perm_webdav ∷ perm_stage ∷ perm_share ∷ perm_plugins
    ∷ []

-- AllPerms and DefaultUserPerms.
abbrev pub all_perms : ℕ
all_perms = 8191

abbrev pub default_user_perms : ℕ
default_user_perms = 3047

pub data Role : Type 0 where
  admin : Role
  user : Role

abbrev pub default_perms : Role → ℕ
default_perms admin = all_perms
default_perms user = default_user_perms

-- The white space that strings.TrimSpace cuts off.
abbrev pub is_space : ℕ → Bool
is_space r =
    (leb 9 r && leb r 13)
    || (r == 32)
    || (r == 133)
    || (r == 160)
    || (r == 5760)
    || (leb 8192 r && leb r 8202)
    || (r == 8232)
    || (r == 8233)
    || (r == 8239)
    || (r == 8287)
    || (r == 12288)

abbrev pub trim_front : Name → Name
trim_front [] = []
trim_front (c ∷ cs) = if is_space c then trim_front cs else c ∷ cs

abbrev pub trim_back : Name → Name
trim_back [] = []
trim_back (c ∷ cs) =
    let rest = trim_back cs in if is_space c && same_name rest [] then [] else c ∷ rest

abbrev pub trim_space : Name → Name
trim_space s = trim_back (trim_front s)

-- `for _, p := range permNames { if p.Name == name { out |= p.Perm } }`
abbrev pub add_named : Name → List PermEntry → ℕ → ℕ
add_named name [] out = out
add_named name (e ∷ es) out =
    add_named name es (if same_name (e.name) name then bit_or out (e.perm) else out)

abbrev pub add_all : List Name → ℕ → ℕ
add_all [] out = out
add_all (raw ∷ rest) out = add_all rest (add_named (trim_space raw) perm_table out)

unfoldable pub perms_from_names : List Name → ℕ
perms_from_names names = add_all names 0

abbrev pub names_in : List PermEntry → ℕ → List Name
names_in [] p = []
names_in (e ∷ es) p =
    let rest = names_in es p in if bit_and p (e.perm) == 0 then rest else e.name ∷ rest

unfoldable pub perm_names : ℕ → List Name
perm_names p = names_in perm_table p

pub record User : Type 0 where
  pub role : Role
  pub perms : ℕ

abbrev pub is_admin : Role → Bool
is_admin admin = true
is_admin user = false

unfoldable pub effective : User → ℕ
effective u =
    if is_admin (u.role)
    then all_perms
    else if u.perms == 0
    then default_perms (u.role)
    else bit_or (u.perms) (perm_read.perm)

unfoldable pub can : User → ℕ → Bool
can u p = bit_and (effective u) p == p
