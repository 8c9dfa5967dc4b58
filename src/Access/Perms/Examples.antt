-- ===== src/Access/Perms/Examples.antt =====
-- A reader who may upload.
use tdrive.Base.{◌≡◌, refl, [], ◌∷◌, arith}
use tdrive.Access.Perms.{perms_from_names, perm_names}
use tdrive.Access.Perms.Naming.{perms_from_names-perm_names}

-- " read" and an unknown name.
spaces_and_unknown : perms_from_names ((32 ∷ 114 ∷ 101 ∷ 97 ∷ 100 ∷ []) ∷ (120 ∷ []) ∷ []) ≡ 1
unfolding perms_from_names
spaces_and_unknown = refl

perms_from_names-perm_names_example : perms_from_names (perm_names 5) ≡ 5
perms_from_names-perm_names_example = perms_from_names-perm_names 5 (omega arith)
