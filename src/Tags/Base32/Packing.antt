-- ===== src/Tags/Base32/Packing.antt =====
-- Base32 of bytes reads back as the bytes, and is a word.
use tdrive.Base.{
  ℕ, ◌<◌, ◌≡◌, refl, sym, ap, ap₂, ◌∙◌, true, false, ◌||◌, some, List, [], ◌∷◌, map, ◌==◌, arith,
  All,
}
use tdrive.Access.Perms.{is_space}
use tdrive.Tags.Words.Joined.{no_space, is_word}
use tdrive.Tags.Base32.{
  pack, unpack, letter, digit_of, digits_of, bytes_of, encode_bytes, decode_bytes,
}

abbrev Bytes : List ℕ → Type 0
Bytes bs = All (λ b. b < 256) bs

abbrev Digits : List ℕ → Type 0
Digits ns = All (λ n. n < 32) ns

cons₂ : {x y : ℕ} {xs ys : List ℕ} → x ≡ y → xs ≡ ys → x ∷ xs ≡ y ∷ ys
cons₂ e f = ap₂ (λ x xs. x ∷ xs) e f

unpack-pack : (bs : List ℕ) → Bytes bs → unpack (pack bs) ≡ bs
unfolding pack unpack
unpack-pack [] h = refl
unpack-pack (a ∷ []) (h, _) = cons₂ (omega arith) refl
unpack-pack (a ∷ b ∷ []) (h, (i, _)) = cons₂ (omega arith) (cons₂ (omega arith) refl)
unpack-pack (a ∷ b ∷ c ∷ []) (h, (i, (j, _))) =
    cons₂ (omega arith) (cons₂ (omega arith) (cons₂ (omega arith) refl))
unpack-pack (a ∷ b ∷ c ∷ d ∷ []) (h, (i, (j, (k, _)))) =
    cons₂ (omega arith) (cons₂ (omega arith) (cons₂ (omega arith) (cons₂ (omega arith) refl)))
unpack-pack (a ∷ b ∷ c ∷ d ∷ e ∷ rest) (h, (i, (j, (k, (l, m))))) = cons₂ (omega arith) (
    cons₂ (omega arith)
      (cons₂ (omega arith) (cons₂ (omega arith) (cons₂ (omega arith) (unpack-pack rest m)))))

pack-Digits : (bs : List ℕ) → Bytes bs → Digits (pack bs)
unfolding pack
pack-Digits [] h = tt
pack-Digits (a ∷ []) (h, _) = (omega arith, (omega arith, tt))
pack-Digits (a ∷ b ∷ []) (h, (i, _)) =
    (omega arith, (omega arith, (omega arith, (omega arith, tt))))
pack-Digits (a ∷ b ∷ c ∷ []) (h, (i, (j, _))) =
    (omega arith, (omega arith, (omega arith, (omega arith, (omega arith, tt)))))
pack-Digits (a ∷ b ∷ c ∷ d ∷ []) (h, (i, (j, (k, _)))) = (
  omega arith,
  (omega arith, (omega arith, (omega arith, (omega arith, (omega arith, (omega arith, tt)))))),
)
pack-Digits (a ∷ b ∷ c ∷ d ∷ e ∷ rest) (h, (i, (j, (k, (l, m))))) = (
  omega arith,
  (
    omega arith,
    (
      omega arith,
      (omega arith, (omega arith, (omega arith, (omega arith, (omega arith, pack-Digits rest m))))),
    ),
  ),
)

letter-digit_of : (n : ℕ) → n < 32 → digit_of (letter n) ≡ some n
letter-digit_of n h = ground arith

letter-line_end : (n : ℕ) → n < 32 → (letter n == 10 || letter n == 13) ≡ false
letter-line_end n h = ground arith

letter-is_space : (n : ℕ) → n < 32 → is_space (letter n) ≡ false
letter-is_space n h = ground arith

digits_of-map : (ns : List ℕ) → Digits ns → digits_of (map letter ns) ≡ some ns
unfolding digits_of
digits_of-map [] h = refl
digits_of-map (n ∷ ns) (h, k) =
    rw (letter-line_end n h, letter-digit_of n h, digits_of-map ns k) refl

no_space-map : (ns : List ℕ) → Digits ns → no_space (map letter ns) ≡ true
no_space-map [] h = refl
no_space-map (n ∷ ns) (h, k) = rw (letter-is_space n h) (no_space-map ns k)

pub decode_bytes-encode_bytes : (bs : List ℕ) → Bytes bs → decode_bytes (encode_bytes bs) ≡ some bs
unfolding encode_bytes decode_bytes
decode_bytes-encode_bytes bs h =
    ap bytes_of (digits_of-map (pack bs) (pack-Digits bs h))
    ∙ ap (λ (x : List ℕ). some x) (unpack-pack bs h)

nonempty-pack : (b : ℕ) (bs : List ℕ) → (n : ℕ) × (ns : List ℕ) × (pack (b ∷ bs) ≡ n ∷ ns)
unfolding pack
nonempty-pack a [] = (_, _, refl)
nonempty-pack a (b ∷ []) = (_, _, refl)
nonempty-pack a (b ∷ c ∷ []) = (_, _, refl)
nonempty-pack a (b ∷ c ∷ d ∷ []) = (_, _, refl)
nonempty-pack a (b ∷ c ∷ d ∷ e ∷ rest) = (_, _, refl)

pub is_word-encode_bytes :
    (b : ℕ) (bs : List ℕ) → Bytes (b ∷ bs) → is_word (encode_bytes (b ∷ bs)) ≡ true
unfolding encode_bytes
is_word-encode_bytes b bs h =
    let (n, ns, e) = nonempty-pack b bs in
    let spaceless = no_space-map (pack (b ∷ bs)) (pack-Digits (b ∷ bs) h) in
    ap (λ (x : List ℕ). is_word (map letter x)) e
    ∙ sym (ap (λ (x : List ℕ). no_space (map letter x)) e)
    ∙ spaceless
