-- ===== src/Access/Perms/Naming.antt =====
-- The wire form of a permission set.
use tdrive.Base.{
  ℕ, ◌<◌, ◌≡◌, refl, ap, ◌∙◌, inl, inr, true, List, [], ◌∷◌, bit_and, bit_or, ◌==◌, ==_iff,
  if◌then◌else◌, Bool-cases, All,
}
use tdrive.Base.Sweep.{passes, passes_at}
use tdrive.Access.Perms.{
  PermEntry, perm_table, trim_space, add_named, add_all, perms_from_names, names_in, perm_names,
}

-- The bits of a set that the table knows, collected in the table's order.
abbrev known : List PermEntry → ℕ → ℕ → ℕ
known [] p out = out
known (e ∷ es) p out = known es p (if bit_and p (e.perm) == 0 then out else bit_or out (e.perm))

-- An entry's name adds its permission and nothing else.
abbrev IsNamed : PermEntry → Type 0
IsNamed e = (out : ℕ) → add_named (trim_space (e.name)) perm_table out ≡ bit_or out (e.perm)

add_all-names_in :
    (es : List PermEntry) (p out : ℕ)
    → All IsNamed es
    → add_all (names_in es p) out ≡ known es p out
add_all-names_in [] p out h = refl
add_all-names_in (e ∷ es) p out h = elim (Bool-cases (bit_and p (e.perm) == 0)) [
  | inl z ↦ rw z (add_all-names_in es p out (h.1))
  | inr z ↦ rw z (
      ap (λ o. add_all (names_in es p) o) (h.0 out)
      ∙ add_all-names_in es p (bit_or out (e.perm)) (h.1))
]

table-IsNamed : All IsNamed perm_table
table-IsNamed = (
  (λ o. refl),
  (
    (λ o. refl),
    (
      (λ o. refl),
      (
        (λ o. refl),
        (
          (λ o. refl),
          (
            (λ o. refl),
            (
              (λ o. refl),
              (
                (λ o. refl),
                ((λ o. refl), ((λ o. refl), ((λ o. refl), ((λ o. refl), ((λ o. refl), tt))))),
              ),
            ),
          ),
        ),
      ),
    ),
  ),
)

known_table : passes (λ p. known perm_table p 0 == p) 8192 ≡ true
unfolding passes
known_table = refl

-- Every set of the thirteen permissions survives the wire: PermsFromNames of its PermNames is the set.
pub perms_from_names-perm_names : (p : ℕ) → p < 8192 → perms_from_names (perm_names p) ≡ p
unfolding perms_from_names perm_names
perms_from_names-perm_names p h =
    add_all-names_in perm_table p 0 table-IsNamed
    ∙ (==_iff (known perm_table p 0) p).0
        (passes_at (λ n. known perm_table n 0 == n) 8192 p h known_table)
