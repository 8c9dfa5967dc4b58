-- ===== src/Rebuild/Collisions/Free.antt =====
-- The search for a free name ends: among as many numbers as slots are taken, and one more, one is free.
use mathlib.Core.List.{append_cancel_left, append_cancel_right}
use tdrive.Base.{
  ℕ, zero, suc, ◌≤◌, ◌<◌, ◌≡◌, refl, sym, ap, ◌∙◌, subst, inl, inr, Bool, true, false, ◌||◌, some,
  List, [], ◌∷◌, ◌++◌, arith, if◌then◌else◌, length, Bool-cases,
}
use tdrive.Names.Path.{Text, text_eq}
use tdrive.Tags.Numbers.{decimal, decimal_inj}
use tdrive.Names.Path.Equal.{text_eq_iff}
use tdrive.Rebuild.Collisions.{is_taken, numbered, numbered_free, free_name}

numbered_inj : (name : Text) (n m : ℕ) → numbered name n ≡ numbered name m → n ≡ m
numbered_inj name n m h =
    let closed =
      append_cancel_right (name ++ 32 ∷ 40 ∷ decimal n) (name ++ 32 ∷ 40 ∷ decimal m) (41 ∷ []) h in
    let digits = append_cancel_left name (32 ∷ 40 ∷ decimal n) (32 ∷ 40 ∷ decimal m) closed in
    decimal_inj n m (append_cancel_left (32 ∷ 40 ∷ []) (decimal n) (decimal m) digits)

-- The slots without one of them.
abbrev without : Text → List Text → List Text
without slot [] = []
without slot (t ∷ ts) = let rest = without slot ts in if text_eq t slot then rest else t ∷ rest

length-without : (slot : Text) (ts : List Text) → length (without slot ts) ≤ length ts
length-without slot [] = ground arith
length-without slot (t ∷ ts) = elim (Bool-cases (text_eq t slot)) [
  | inl e ↦ ground (arith, e, length-without slot ts)
  | inr e ↦ ground (arith, e, length-without slot ts)
]

without-fewer :
    (slot : Text) (ts : List Text) → is_taken slot ts ≡ true → length (without slot ts) < length ts
without-fewer slot [] t = ground arith
without-fewer slot (t ∷ ts) u = elim (Bool-cases (text_eq t slot)) [
  | inl e ↦ ground (arith, e, length-without slot ts)
  | inr e ↦ ground (arith, e, without-fewer slot ts (ground (arith, e, u)))
]

is_taken-without :
    (slot other : Text) (ts : List Text)
    → text_eq slot other ≡ false
    → is_taken other (without slot ts) ≡ is_taken other ts
is_taken-without slot other [] d = refl
is_taken-without slot other (t ∷ ts) d = elim (Bool-cases (text_eq t slot)) [
  | inl e ↦
      let away : text_eq t other ≡ false =
        subst (λ (x : Text). text_eq x other ≡ false) (sym ((text_eq_iff t slot).0 e)) d in
      rw (e, away) (is_taken-without slot other ts d)
  | inr e ↦ rw e (ap (λ (b : Bool). text_eq t other || b) (is_taken-without slot other ts d))
]

module _ (slot : Text → Text) (inj : (x y : Text) → slot x ≡ slot y → x ≡ y) (name : Text) where
  differ : (n m : ℕ) → n < m → text_eq (slot (numbered name n)) (slot (numbered name m)) ≡ false
  differ n m l =
      let x = slot (numbered name n) in
      let y = slot (numbered name m) in
      elim (Bool-cases (text_eq x y)) [
        | inl e ↦
            let same : n ≡ m = numbered_inj name n m (inj _ _ ((text_eq_iff x y).0 e)) in
            absurd (omega arith)
        | inr e ↦ e
      ]

  -- A slot of a number that is past does not matter.
  numbered_free-without :
      (tries : ℕ) (taken : List Text) (k n : ℕ)
      → k < n
      → numbered_free tries slot name (without (slot (numbered name k)) taken) n
        ≡ numbered_free tries slot name taken n
  unfolding numbered_free
  numbered_free-without zero taken k n l = refl
  numbered_free-without (suc tries) taken k n l =
      rw
        (
          is_taken-without (slot (numbered name k)) (slot (numbered name n)) taken (differ k n l),
          numbered_free-without tries taken k (suc n) (omega arith),
        )
        refl

  numbered_free-total :
      (tries : ℕ) (taken : List Text) (n : ℕ)
      → length taken < tries
      → (free : Text) × (numbered_free tries slot name taken n ≡ some free)
  unfolding numbered_free
  numbered_free-total zero taken n l = absurd (omega arith)
  numbered_free-total (suc tries) taken n l =
      let here = slot (numbered name n) in
      let fewer = without here taken in
      elim (Bool-cases (is_taken here taken)) [
        | inl t ↦
            let less : length fewer < tries = ground (arith, without-fewer here taken t) in
            let (free, e) = numbered_free-total tries fewer (suc n) less in
            let found : numbered_free tries slot name taken (suc n) ≡ some free =
              sym (numbered_free-without tries taken n (suc n) (omega arith)) ∙ e in
            (free, rw t found)
        | inr t ↦ (numbered name n, rw t refl)
      ]

  numbered_free-free :
      (tries : ℕ) (taken : List Text) (n : ℕ) (free : Text)
      → numbered_free tries slot name taken n ≡ some free
      → is_taken (slot free) taken ≡ false
  unfolding numbered_free
  numbered_free-free zero taken n free e = ground arith
  numbered_free-free (suc tries) taken n free e =
      elim (Bool-cases (is_taken (slot (numbered name n)) taken)) [
        | inl t ↦ numbered_free-free tries taken (suc n) free (rw t at e)
        | inr t ↦
            let same : numbered name n ≡ free = ground (arith, t, e) in
            subst (λ (x : Text). is_taken (slot x) taken ≡ false) same t
      ]

  -- Where names with different slots differ, a name is found, and its slot is free.
  pub free_name-total :
      (taken : List Text)
      → (free : Text) × (free_name slot name taken ≡ some free)
        × (is_taken (slot free) taken ≡ false)
  unfolding free_name
  free_name-total taken = elim (Bool-cases (is_taken (slot name) taken)) [
    | inl t ↦
        let (free, e) = numbered_free-total (suc (length taken)) taken 2 (omega arith) in
        (free, rw t e, numbered_free-free (suc (length taken)) taken 2 free e)
    | inr t ↦ (name, rw t refl, t)
  ]
