-- ===== src/Tags/Utf8/Decoding.antt =====
-- The bytes of a valid string are bytes, and read back as the string.
use tdrive.Base.{
  ℕ, ◌+◌, ◌/◌, ◌<◌, ◌≡◌, refl, ap, ◌∙◌, inl, inr, true, false, List, [], ◌∷◌, ◌++◌, ltb, arith, All,
  Bool-cases, choose_true, choose_false,
}
use tdrive.Names.Path.{Text}
use tdrive.Tags.Utf8.{
  is_rune, is_text, rune_bytes, continuation, utf8_rune, utf8, first_rune, runes_from, runes,
}

one_byte :
    (c : ℕ) (rest : List ℕ) → ltb c 128 ≡ true → runes_from 0 (c ∷ rest) ≡ c ∷ runes_from 0 rest
unfolding runes_from
one_byte c rest h = rw h refl

in_two :
    (c : ℕ) (rest : List ℕ)
    → ltb c 128 ≡ false
    → ltb c 2048 ≡ true
    → first_rune (192 + c / 64) (continuation c ∷ rest) ≡ (c, 2)
in_two c rest h k = ground arith

in_three :
    (c : ℕ) (rest : List ℕ)
    → ltb c 2048 ≡ false
    → ltb c 65536 ≡ true
    → is_rune c ≡ true
    → first_rune (224 + c / 4096) (continuation (c / 64) ∷ continuation c ∷ rest) ≡ (c, 3)
in_three c rest h k v = ground arith

in_four :
    (c : ℕ) (rest : List ℕ)
    → ltb c 65536 ≡ false
    → is_rune c ≡ true
    → first_rune
        (240 + c / 262144)
        (continuation (c / 4096) ∷ continuation (c / 64) ∷ continuation c ∷ rest)
      ≡ (c, 4)
in_four c rest h v = ground arith

rune_read :
    (c : ℕ) (rest : List ℕ)
    → is_rune c ≡ true
    → runes_from 0 (rune_bytes c ++ rest) ≡ c ∷ runes_from 0 rest
unfolding runes_from
rune_read c rest v = elim (Bool-cases (ltb c 128)) [
  | inl a ↦ rw a (rw a refl)
  | inr a ↦ elim (Bool-cases (ltb c 2048)) [
    | inl b ↦ rw (a, b) (rw (in_two c rest a b) refl)
    | inr b ↦ elim (Bool-cases (ltb c 65536)) [
      | inl d ↦ rw (a, b, d) (rw (in_three c rest b d v) refl)
      | inr d ↦ rw (a, b, d) (rw (in_four c rest d v) refl)
    ]
  ]
]

abbrev Bytes : List ℕ → Type 0
Bytes bs = All (λ b. b < 256) bs

rune_bytes-Bytes : (c : ℕ) → is_rune c ≡ true → Bytes (rune_bytes c)
rune_bytes-Bytes c v = elim (Bool-cases (ltb c 128)) [
  | inl a ↦ rw a (ground arith, tt)
  | inr a ↦ elim (Bool-cases (ltb c 2048)) [
    | inl b ↦ rw (a, b) (ground arith, (ground arith, tt))
    | inr b ↦ elim (Bool-cases (ltb c 65536)) [
      | inl d ↦ rw (a, b, d) (ground arith, (ground arith, (ground arith, tt)))
      | inr d ↦ rw (a, b, d) (ground arith, (ground arith, (ground arith, (ground arith, tt))))
    ]
  ]
]

utf8_rune-Bytes : (c : ℕ) → Bytes (utf8_rune c)
utf8_rune-Bytes c = elim (Bool-cases (is_rune c)) [
  | inl v ↦ rw v (rune_bytes-Bytes c v)
  | inr v ↦ rw v (omega arith, (omega arith, (omega arith, tt)))
]

Bytes-append : (xs ys : List ℕ) → Bytes xs → Bytes ys → Bytes (xs ++ ys)
Bytes-append [] ys a b = b
Bytes-append (x ∷ xs) ys (h, a) b = (h, Bytes-append xs ys a b)

is_text-head : (c : ℕ) (cs : Text) → is_text (c ∷ cs) ≡ true → is_rune c ≡ true
is_text-head c cs h = ground arith

is_text-tail : (c : ℕ) (cs : Text) → is_text (c ∷ cs) ≡ true → is_text cs ≡ true
is_text-tail c cs h = ground arith

pub runes-utf8 : (t : Text) → is_text t ≡ true → runes (utf8 t) ≡ t
unfolding utf8 runes_from
runes-utf8 [] h = refl
runes-utf8 (c ∷ cs) h =
    let v = is_text-head c cs h in
    ap (λ (x : List ℕ). runes_from 0 (x ++ utf8 cs)) (choose_true _ _ v)
    ∙ rune_read c (utf8 cs) v
    ∙ ap (λ (x : Text). c ∷ x) (runes-utf8 cs (is_text-tail c cs h))

pub utf8-Bytes : (t : Text) → Bytes (utf8 t)
unfolding utf8
utf8-Bytes [] = tt
utf8-Bytes (c ∷ cs) = Bytes-append (utf8_rune c) (utf8 cs) (utf8_rune-Bytes c) (utf8-Bytes cs)

nonempty-rune_bytes : (c : ℕ) → (b : ℕ) × (bs : List ℕ) × (rune_bytes c ≡ b ∷ bs)
nonempty-rune_bytes c = elim (Bool-cases (ltb c 128)) [
  | inl a ↦ (_, _, choose_true _ _ a)
  | inr a ↦ elim (Bool-cases (ltb c 2048)) [
    | inl b ↦ (_, _, choose_false _ _ a ∙ choose_true _ _ b)
    | inr b ↦ elim (Bool-cases (ltb c 65536)) [
      | inl d ↦ (_, _, choose_false _ _ a ∙ choose_false _ _ b ∙ choose_true _ _ d)
      | inr d ↦ (_, _, choose_false _ _ a ∙ choose_false _ _ b ∙ choose_false _ _ d)
    ]
  ]
]

pub nonempty-utf8 : (c : ℕ) (cs : Text) → (b : ℕ) × (bs : List ℕ) × (utf8 (c ∷ cs) ≡ b ∷ bs)
unfolding utf8
nonempty-utf8 c cs = elim (Bool-cases (is_rune c)) [
  | inl v ↦
      let (b, bs, e) = nonempty-rune_bytes c in
      (b, bs ++ utf8 cs, ap (λ (x : List ℕ). x ++ utf8 cs) (choose_true _ _ v ∙ e))
  | inr v ↦ (_, _, ap (λ (x : List ℕ). x ++ utf8 cs) (choose_false _ _ v))
]
