-- ===== src/Tags/Numbers.antt =====
-- Numbers in a tag: %d of a number that is not negative, and what ParseInt makes of it.
use tdrive.Base.{
  ℕ, zero, suc, ◌+◌, ◌-◌, ◌*◌, ◌/◌, ◌%◌, ◌≤◌, ◌<◌, ◌≡◌, refl, sym, ap, ◌∙◌, Bool, true, false, ◌&&◌,
  none, some, [], ◌∷◌, ltb, leb, ◌==◌, inl, inr, Bool-cases, if◌then◌else◌, choose_true,
  choose_false, arith,
}
use tdrive.Base.Int.{pos}
use tdrive.Api.Range.{digits, positive, parse_int, max_int64}
use tdrive.Names.Path.{Text}

-- The digits of a number, before `tail`; a round for each digit.
unfoldable pub decimal_onto : ℕ → ℕ → Text → Text
decimal_onto zero n tail = tail
decimal_onto (suc rounds) n tail =
    let more = decimal_onto rounds (n / 10) ((48 + n % 10) ∷ tail) in
    if ltb n 10 then (48 + n) ∷ tail else more

unfoldable pub decimal : ℕ → Text
decimal n = decimal_onto (n + 1) n []

abbrev pub is_digit : ℕ → Bool
is_digit c = leb 48 c && leb c 57

abbrev pub all_digits : Text → Bool
all_digits [] = true
all_digits (c ∷ cs) = is_digit c && all_digits cs

digits-cons :
    (v c : ℕ) (cs : Text) → is_digit c ≡ true → digits v (c ∷ cs) ≡ digits (v * 10 + (c - 48)) cs
digits-cons v c cs h = choose_true _ _ h

small_digit : (n : ℕ) → ltb n 10 ≡ true → is_digit (48 + n) ≡ true
small_digit n h = ground arith

last_digit : (n : ℕ) → is_digit (48 + n % 10) ≡ true
last_digit n = ground arith

digits-decimal_onto :
    (rounds n : ℕ) (tail : Text)
    → n < rounds
    → digits 0 (decimal_onto rounds n tail) ≡ digits n tail
unfolding decimal_onto
digits-decimal_onto zero n tail h = absurd (omega arith)
digits-decimal_onto (suc rounds) n tail h = elim (Bool-cases (ltb n 10)) [
  | inl e ↦
      ap (digits 0) (choose_true _ _ e)
      ∙ digits-cons 0 (48 + n) tail (small_digit n e)
      ∙ ap (λ (k : ℕ). digits k tail) (omega arith)
  | inr e ↦
      ap (digits 0) (choose_false _ _ e)
      ∙ digits-decimal_onto rounds (n / 10) ((48 + n % 10) ∷ tail) (ground arith)
      ∙ digits-cons (n / 10) (48 + n % 10) tail (last_digit n)
      ∙ ap (λ (k : ℕ). digits k tail) (omega arith)
]

all_digits-decimal_onto :
    (rounds n : ℕ) (tail : Text)
    → all_digits tail ≡ true
    → all_digits (decimal_onto rounds n tail) ≡ true
unfolding decimal_onto
all_digits-decimal_onto zero n tail h = h
all_digits-decimal_onto (suc rounds) n tail h =
    let ih = all_digits-decimal_onto rounds (n / 10) ((48 + n % 10) ∷ tail) (ground arith) in
    elim (Bool-cases (ltb n 10)) [
      | inl e ↦ ap all_digits (choose_true _ _ e) ∙ (ground arith)
      | inr e ↦ ap all_digits (choose_false _ _ e) ∙ ih
    ]

nonempty-decimal_onto :
    (rounds n : ℕ) (tail : Text)
    → n < rounds
    → (c : ℕ) × (cs : Text) × (decimal_onto rounds n tail ≡ c ∷ cs)
unfolding decimal_onto
nonempty-decimal_onto zero n tail h = absurd (omega arith)
nonempty-decimal_onto (suc rounds) n tail h = elim (Bool-cases (ltb n 10)) [
  | inl e ↦ (48 + n, tail, choose_true _ _ e)
  | inr e ↦
      let (c, cs, f) =
        nonempty-decimal_onto rounds (n / 10) ((48 + n % 10) ∷ tail) (ground arith) in
      (c, cs, choose_false _ _ e ∙ f)
]

pub all_digits-decimal : (n : ℕ) → all_digits (decimal n) ≡ true
unfolding decimal
all_digits-decimal n = all_digits-decimal_onto (n + 1) n [] refl

parse_int-digits :
    (n c : ℕ) (cs : Text)
    → is_digit c ≡ true
    → digits 0 (c ∷ cs) ≡ some n
    → n ≤ max_int64
    → parse_int (c ∷ cs) ≡ some (pos n)
unfolding parse_int
parse_int-digits n c cs h e k =
    choose_false _ _ (not_sign 45 h refl)
    ∙ choose_false _ _ (not_sign 43 h refl)
    ∙ ap positive e
    ∙ choose_true (some (pos n)) none (ground arith)
  where
    not_sign : (d : ℕ) → is_digit c ≡ true → leb 48 d ≡ false → (c == d) ≡ false
    not_sign d u v = ground arith

-- ParseInt of a number that %d has written, up to the largest int64.
pub parse_int-decimal : (n : ℕ) → n ≤ max_int64 → parse_int (decimal n) ≡ some (pos n)
unfolding decimal
parse_int-decimal n h =
    let (c, cs, e) = nonempty-decimal_onto (n + 1) n [] (omega arith) in
    let d : all_digits (c ∷ cs) ≡ true =
      sym (ap all_digits e) ∙ all_digits-decimal_onto (n + 1) n [] refl in
    let v : digits 0 (c ∷ cs) ≡ some n =
      sym (ap (digits 0) e) ∙ digits-decimal_onto (n + 1) n [] (omega arith) in
    ap (λ (t : Text). parse_int t) e ∙ parse_int-digits n c cs (head_digit c cs d) v h
  where
    head_digit : (c : ℕ) (cs : Text) → all_digits (c ∷ cs) ≡ true → is_digit c ≡ true
    head_digit c cs w = ground arith

pub decimal-cons : (n : ℕ) → (c : ℕ) × (cs : Text) × (decimal n ≡ c ∷ cs)
unfolding decimal
decimal-cons n = nonempty-decimal_onto (n + 1) n [] (omega arith)

-- Different numbers are written differently.
pub decimal_inj : (n m : ℕ) → decimal n ≡ decimal m → n ≡ m
unfolding decimal
decimal_inj n m h =
    let a : digits 0 (decimal n) ≡ some n = digits-decimal_onto (n + 1) n [] (omega arith) in
    let b : digits 0 (decimal m) ≡ some m = digits-decimal_onto (m + 1) m [] (omega arith) in
    let c : some n ≡ some m = sym a ∙ ap (digits 0) h ∙ b in ground arith
