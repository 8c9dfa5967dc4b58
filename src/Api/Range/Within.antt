-- ===== src/Api/Range/Within.antt =====
-- The bytes that an answer of parseRange names.
use tdrive.Base.{
  ℕ, ◌≤◌, ◌<◌, ◌≡◌, refl, true, Option, none, some, [], ◌∷◌, arith, Bool-cases, ◌⊎◌, inl, inr, ltb,
  leb, ◌||◌, ◌==◌,
}
use tdrive.Base.Int.{ℤ, pos, negsuc}
use tdrive.Names.Path.{Text, text_eq}
use tdrive.Access.Perms.{trim_space}
use tdrive.Api.Range.{
  Answer, refused, whole, part, suffix, ending, ended, starting, forms, cut_at_dash, first_range,
  of_unit, parse_range, parse_int, cut_prefix, bytes_unit, up_to, after_first,
}

-- Refused with the bytes 0-0 and no range; or a non-empty range of the content; or all of it.
abbrev pub IsWithin : ℕ → Answer → Type 0
IsWithin size a =
    (a ≡ refused)
    ⊎ ((a.is_ok ≡ true)
        × (a.start ≤ a.end)
        × (a.end < size)
        × ((a.ranged ≡ true) ⊎ (a ≡ whole size)))

module _ (size : ℕ) (some_bytes : 0 < size) where
  part-IsWithin : (start end : ℕ) → start ≤ end → end < size → IsWithin size (part start end)
  part-IsWithin start end h k = inr (refl, h, k, inl refl)

  whole-IsWithin : IsWithin size (whole size)
  whole-IsWithin = inr (refl, omega arith, omega arith, inr refl)

  suffix-IsWithin : (o : Option ℤ) → IsWithin size (suffix size o)
  unfolding suffix
  suffix-IsWithin none = inl refl
  suffix-IsWithin (some (negsuc n)) = inl refl
  suffix-IsWithin (some (pos n)) = elim (Bool-cases (leb n 0)) [
    | inl e ↦ rw e (inl refl)
    | inr e ↦ rw e (part-IsWithin _ _ (ground arith) (omega arith))
  ]

  ending-IsWithin : (start : ℕ) (o : Option ℤ) → start < size → IsWithin size (ending size start o)
  unfolding ending
  ending-IsWithin start none h = inl refl
  ending-IsWithin start (some (negsuc n)) h = inl refl
  ending-IsWithin start (some (pos e)) h = elim (Bool-cases (ltb e start)) [
    | inl k ↦ rw k (inl refl)
    | inr k ↦ rw k (part-IsWithin _ _ (ground arith) (ground arith))
  ]

  ended-IsWithin :
      (start : ℕ) (after : Text) → start < size → IsWithin size (ended size start after)
  ended-IsWithin start [] h = part-IsWithin _ _ (omega arith) (omega arith)
  ended-IsWithin start (c ∷ cs) h = ending-IsWithin start (parse_int (c ∷ cs)) h

  starting-IsWithin : (after : Text) (o : Option ℤ) → IsWithin size (starting size after o)
  unfolding starting
  starting-IsWithin after none = inl refl
  starting-IsWithin after (some (negsuc n)) = inl refl
  starting-IsWithin after (some (pos start)) = elim (Bool-cases (leb size start)) [
    | inl k ↦ rw k (inl refl)
    | inr k ↦ rw k (ended-IsWithin start after (ground arith))
  ]

  forms-IsWithin : (before after : Text) → IsWithin size (forms size before after)
  forms-IsWithin [] [] = inl refl
  forms-IsWithin [] (c ∷ cs) = suffix-IsWithin (parse_int (c ∷ cs))
  forms-IsWithin (b ∷ bs) after = starting-IsWithin after (parse_int (b ∷ bs))

  cut_at_dash-IsWithin : (spec : Text) (o : Option Text) → IsWithin size (cut_at_dash size spec o)
  cut_at_dash-IsWithin spec none = inl refl
  cut_at_dash-IsWithin spec (some after) = forms-IsWithin _ _

  first_range-IsWithin : (spec : Text) → IsWithin size (first_range size spec)
  first_range-IsWithin spec = cut_at_dash-IsWithin spec (after_first 45 spec)

  of_unit-IsWithin : (o : Option Text) → IsWithin size (of_unit size o)
  of_unit-IsWithin none = whole-IsWithin
  of_unit-IsWithin (some spec) = first_range-IsWithin (trim_space (up_to 44 spec))

  -- For content of at least one byte and any header, parseRange refuses the header, with the bytes
  -- 0-0 and no range, or its answer is a non-empty range that ends before the size, and where the
  -- answer is not ranged it is all of the content.
  pub parse_range-IsWithin : (header : Text) → IsWithin size (parse_range header size)
  unfolding parse_range
  parse_range-IsWithin header = elim (Bool-cases (text_eq header [] || size == 0)) [
    | inl k ↦ rw k whole-IsWithin
    | inr k ↦ rw k (of_unit-IsWithin (cut_prefix bytes_unit (trim_space header)))
  ]
