-- ===== src/Names/Path/Depth.antt =====
-- How deep a path is: the number of components that SplitPath (internal/drive/path.go) finds.
use tdrive.Base.{
  append_assoc, ℕ, suc, ◌+◌, ◌≤◌, ◌<◌, ◌≡◌, refl, sym, ap, ◌∙◌, subst, Bool, true, false, ◌&&◌,
  ◌||◌, List, [], ◌∷◌, ◌++◌, arith, ◌==◌, Bool-cases, inl, inr, ◌⊎◌, length, if◌then◌else◌,
}
use tdrive.Names.Path.{
  Text, slash, root, text_eq, contains_rune, put_front, split_slash, trim_left, trim_right,
  split_path, join,
}

abbrev pub depth : Text → ℕ
depth p = length (split_path p)

abbrev slashes : Text → ℕ
slashes [] = 0
slashes (c ∷ cs) = let rest = slashes cs in if c == slash then suc rest else rest

length-put_front : (c : ℕ) (xs : List Text) → 1 ≤ length xs → length (put_front c xs) ≡ length xs
length-put_front c [] h = absurd (omega arith)
length-put_front c (x ∷ xs) h = refl

length-split_slash : (p : Text) → length (split_slash p) ≡ suc (slashes p)
length-split_slash [] = refl
length-split_slash (c ∷ cs) = elim (Bool-cases (c == slash)) [
  | inl e ↦ rw e (ap (λ (n : ℕ). suc n) (length-split_slash cs))
  | inr e ↦
      let some_pieces : 1 ≤ length (split_slash cs) = omega (arith, length-split_slash cs) in
      rw e (length-put_front c (split_slash cs) some_pieces ∙ length-split_slash cs)
]

slashes-append : (xs ys : Text) → slashes (xs ++ ys) ≡ slashes xs + slashes ys
slashes-append [] ys = omega arith
slashes-append (c ∷ cs) ys = ground (arith, slashes-append cs ys)

slashes-trim_right : (p : Text) → slashes (trim_right p) ≤ slashes p
slashes-trim_right [] = omega arith
slashes-trim_right (c ∷ cs) = ground (arith, slashes-trim_right cs)

-- A name: not empty, and no slash in it.
pub record IsComponent (name : Text) : Type 0 where
  pub nonempty : text_eq name [] ≡ false
  pub no_slash : contains_rune slash name ≡ false

slashes-name : (name : Text) → contains_rune slash name ≡ false → slashes name ≡ 0
slashes-name [] h = refl
slashes-name (c ∷ cs) h = ground (arith, h, slashes-name cs (ground (arith, h)))

trim_right-name : (name : Text) → contains_rune slash name ≡ false → trim_right name ≡ name
trim_right-name [] h = refl
trim_right-name (c ∷ cs) h =
    let away : (c == slash) ≡ false = ground (arith, h) in
    rw (away, trim_right-name cs (ground (arith, h))) refl

nonempty-append : (xs name : Text) → text_eq name [] ≡ false → text_eq (xs ++ name) [] ≡ false
nonempty-append [] name h = h
nonempty-append (c ∷ cs) name h = refl

-- Nothing is trimmed behind a name.
trim_right-append : (xs name : Text) → IsComponent name → trim_right (xs ++ name) ≡ xs ++ name
trim_right-append [] name n = trim_right-name name (n.no_slash)
trim_right-append (c ∷ cs) name n =
    rw (trim_right-append cs name n, nonempty-append cs name (n.nonempty)) (kept (c == slash))
  where
    kept : (b : Bool) → (if b && false then [] else c ∷ cs ++ name) ≡ c ∷ cs ++ name
    kept true = refl
    kept false = refl

trim_left-name : (name : Text) → IsComponent name → trim_left (slash ∷ name) ≡ name
trim_left-name [] n = absurd (ground (arith, n.nonempty))
trim_left-name (c ∷ cs) n =
    let away : (c == slash) ≡ false = ground (arith, n.no_slash) in rw away refl

trim_left-append :
    (base name : Text)
    → IsComponent name
    → ((trim_left base ≡ []) × (trim_left (base ++ slash ∷ name) ≡ name))
      ⊎ (trim_left (base ++ slash ∷ name) ≡ trim_left base ++ slash ∷ name)
trim_left-append [] name n = inl (refl, trim_left-name name n)
trim_left-append (c ∷ cs) name n = elim (Bool-cases (c == slash)) [
  | inl e ↦ rw e (trim_left-append cs name n)
  | inr e ↦ inr (rw e refl)
]

depth_of_trimmed :
    (p t : Text) → trim_right (trim_left p) ≡ t → text_eq t [] ≡ false → depth p ≡ suc (slashes t)
unfolding split_path
depth_of_trimmed p t e h = rw (e, h) (length-split_slash t)

depth_bound : (p : Text) → depth p ≤ suc (slashes (trim_left p))
unfolding split_path
depth_bound p = elim (Bool-cases (text_eq (trim_right (trim_left p)) [])) [
  | inl e ↦ rw e (omega arith)
  | inr e ↦ rw e (
      omega
        (arith, length-split_slash (trim_right (trim_left p)), slashes-trim_right (trim_left p)))
]

depth_none : (p : Text) → trim_left p ≡ [] → depth p ≡ 0
unfolding split_path
depth_none p e = rw e refl

depth-behind : (base name : Text) → IsComponent name → depth base < depth (base ++ slash ∷ name)
depth-behind base name n = elim (trim_left-append base name n) [
  | inl (e, f) ↦
      let d =
        depth_of_trimmed (base ++ slash ∷ name) name
          (ap trim_right f ∙ trim_right-name name (n.no_slash)) (n.nonempty) in
      omega (arith, depth_none base e, d)
  | inr f ↦
      let t = trim_left base ++ slash ∷ [] in
      let split : trim_left base ++ slash ∷ name ≡ t ++ name =
        sym (append_assoc (trim_left base) (slash ∷ []) name) in
      let d =
        depth_of_trimmed (base ++ slash ∷ name) (t ++ name)
          (ap trim_right (f ∙ split) ∙ trim_right-append t name n)
          (nonempty-append t name (n.nonempty)) in
      omega (
        arith,
        d,
        depth_bound base,
        slashes-append t name,
        slashes-append (trim_left base) (slash ∷ []),
      )
]

-- A path is deeper than the one that Join put a name behind.
pub depth-join : (base name : Text) → IsComponent name → depth base < depth (join base name)
unfolding join
depth-join base name n = elim (Bool-cases (text_eq base root || text_eq base [])) [
  | inl e ↦ rw e (at_top base e)
  | inr e ↦ rw e (depth-behind base name n)
]
  where
    at_top : (b : Text) → (text_eq b root || text_eq b []) ≡ true → depth b < depth (root ++ name)
    at_top [] e = depth-behind [] name n
    at_top (c ∷ []) e =
        let same : c ≡ slash = ground (arith, e) in
        subst (λ (x : ℕ). depth (x ∷ []) < depth (root ++ name)) (sym same)
          (omega (arith, depth_none root refl, depth-behind [] name n))
    at_top (c ∷ d ∷ cs) e = absurd (ground (arith, e))
