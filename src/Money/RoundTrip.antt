-- ===== src/Money/RoundTrip.antt =====
-- `toCents` and `fromCents` undo one another, and what `formatCurrency` adds.
use ikarin_bank.Prelude.{
  ℕ, suc, ◌+◌, ◌*◌, ◌/◌, ◌%◌, ◌<◌, ◌≡◌, refl, ap, ◌∙◌, Bool, true, false, [], ◌∷◌, ◌++◌, some,
  arith, if◌then◌else◌, take, inl, inr, Bool-cases, ltb, length, length-append,
}
use ikarin_bank.Prelude.Int.{ℤ, pos, negsuc, ◌+ℤ◌, ◌-ℤ◌, ◌*ℤ◌}
use ikarin_bank.Text.{
  Text, is_digit, is_space, keep, every, text_eq, pad_start, pad_end, is_empty, split_at,
  starts_with,
}
use ikarin_bank.Text.Laws.{
  differs, keep-append, keep-every, every_mono, every-append, split_at_first, trim_lem, not_space,
  digit_not_space,
}
use ikarin_bank.Text.Decimal.{
  value, print, parse_int, value-print, every-print, is_empty-print, print_below_ten,
  print_below_hundred, parse_int-digits, keep-group,
}
use ikarin_bank.Money.{
  to_cents, from_cents, parse_amount, dollars_text, magnitude, is_negative, add_cents, negate,
  text_or,
}

-- The two digits behind the point.
abbrev pub pair : ℕ → Text
pair r = (48 + r / 10) ∷ (48 + r % 10) ∷ []

pub pad-print : (r : ℕ) → r < 100 → pad_start 2 48 (print r) ≡ pair r
unfolding pad_start
pad-print r h = elim (Bool-cases (ltb r 10)) [
  | inl p ↦ rw (print_below_ten r (ground arith)) (ground arith)
  | inr p ↦ rw (print_below_hundred r (ground arith) h) (ground arith)
]

-- An amount without its commas: sign, dollars, point, cents.
abbrev plain : Bool → ℕ → Text
plain minus n =
    if minus
    then 45 ∷ (print (n / 100) ++ 46 ∷ pair (n % 100))
    else print (n / 100) ++ 46 ∷ pair (n % 100)

keep-dollars_text :
    (n : ℕ) → keep (differs 44) (dollars_text n) ≡ print (n / 100) ++ 46 ∷ pair (n % 100)
unfolding dollars_text
keep-dollars_text n =
    rw
      (
        keep-append,
        pad-print (n % 100) (omega arith),
        keep-group (print (n / 100)) (every-print (n / 100)),
      )
      (unfold keep in ground arith)

pub keep-from_cents :
    (c : ℤ) → keep (differs 44) (from_cents (some c)) ≡ plain (is_negative c) (magnitude c)
unfolding from_cents
keep-from_cents (pos n) = keep-dollars_text n
keep-from_cents (negsuc n) = unfold keep in ap (λ s. 45 ∷ s) (keep-dollars_text (suc n))

pub pair-digits : (r : ℕ) → r < 100 → every is_digit (pair r) ≡ true
unfolding every
pair-digits r h = ground arith

value-pair : (r : ℕ) → r < 100 → value 0 (pair r) ≡ r
unfolding value
value-pair r h = omega arith

digit_not_point : (c : ℕ) → is_digit c ≡ true → differs 46 c ≡ true
digit_not_point c h = ground arith

pub every-unsigned :
    (ds ts : Text)
    → every is_digit ds ≡ true
    → every is_digit ts ≡ true
    → every not_space (ds ++ 46 ∷ ts) ≡ true
unfolding is_space
every-unsigned ds ts hd ht =
    every-append not_space ds (46 ∷ ts) (every_mono is_digit not_space ds digit_not_space hd)
      (unfold every in every_mono is_digit not_space ts digit_not_space ht)

-- The digits that `toCents` reads as cents: the first two, with a zero for one that is missing.
abbrev pub cents_digits : Text → Text
cents_digits ts = take 2 (pad_end 2 48 ts)

every-cents_digits :
    (ts : Text) → every is_digit ts ≡ true → every is_digit (cents_digits ts) ≡ true
unfolding every pad_end
every-cents_digits [] h = refl
every-cents_digits (c ∷ []) h = ground arith
every-cents_digits (c ∷ d ∷ ts) h = ground arith

is_empty-cents_digits : (ts : Text) → is_empty (cents_digits ts) ≡ false
unfolding pad_end
is_empty-cents_digits [] = refl
is_empty-cents_digits (c ∷ ts) = refl

starts_with-digits : (ds : Text) → every is_digit ds ≡ true → starts_with ds (45 ∷ []) ≡ false
unfolding every starts_with
starts_with-digits [] h = refl
starts_with-digits (d ∷ ds) h = ground arith

text_or-digits : (ds d : Text) → is_empty ds ≡ false → text_or ds d ≡ ds
text_or-digits [] d h = ground arith
text_or-digits (c ∷ ds) d h = refl

add_cents-pos : (a b : ℕ) → add_cents (some (pos a)) (some (pos b)) ≡ some (pos (a * 100 + b))
unfolding ◌+ℤ◌ ◌*ℤ◌
add_cents-pos a b = ground arith

module _ (ds ts : Text) (hd : every is_digit ds ≡ true) (nd : is_empty ds ≡ false)
    (ht : every is_digit ts ≡ true) (nt : is_empty ts ≡ false) where
  amount_of : ℕ
  amount_of = value 0 ds * 100 + value 0 (cents_digits ts)

  read_parts :
      add_cents (parse_int ds) (parse_int (cents_digits ts))
      ≡ some (pos (value 0 ds * 100 + value 0 (cents_digits ts)))
  read_parts =
      rw
        (
          parse_int-digits ds hd nd,
          parse_int-digits (cents_digits ts) (every-cents_digits ts ht) (is_empty-cents_digits ts),
        )
        (add_cents-pos _ _)

  split_parts : split_at 46 (ds ++ 46 ∷ ts) ≡ (ds, ts ∷ [])
  split_parts =
      split_at_first 46 ds ts (every_mono is_digit (differs 46) ds digit_not_point hd)
        (every_mono is_digit (differs 46) ts digit_not_point ht)

  -- The digits before the point and the first two behind it.
  pub parse_amount-digits :
      parse_amount (ds ++ 46 ∷ ts) ≡ some (pos (value 0 ds * 100 + value 0 (cents_digits ts)))
  unfolding parse_amount
  parse_amount-digits =
      rw
        (
          split_parts,
          text_or-digits ds (48 ∷ []) nd,
          text_or-digits ts (48 ∷ 48 ∷ []) nt,
          starts_with-digits ds hd,
        )
        read_parts

  split_minus : split_at 46 (45 ∷ (ds ++ 46 ∷ ts)) ≡ (45 ∷ ds, ts ∷ [])
  unfolding split_at
  split_minus = rw split_parts

  -- A minus before them.
  pub parse_amount-minus :
      parse_amount (45 ∷ (ds ++ 46 ∷ ts))
      ≡ some (pos 0 -ℤ pos (value 0 ds * 100 + value 0 (cents_digits ts)))
  unfolding parse_amount starts_with
  parse_amount-minus = rw (split_minus, text_or-digits ts (48 ∷ 48 ∷ []) nt) (ap negate read_parts)

-- An amount that is neither empty nor a lone point once trimmed is read by `parse_amount`.
pub to_cents-parse_amount :
    (a s : Text)
    → keep (differs 44) a ≡ s
    → every not_space s ≡ true
    → 1 < length s
    → to_cents (some a) ≡ parse_amount s
unfolding to_cents text_eq
to_cents-parse_amount a [] e h l = elim l [ ]
to_cents-parse_amount a (c ∷ []) e h l = absurd (omega arith)
to_cents-parse_amount a (c ∷ d ∷ s) e h l = rw (e, trim_lem (c ∷ d ∷ s) h) (ground arith)

length-plain : (minus : Bool) (n : ℕ) → 1 < length (plain minus n)
length-plain true n = omega (arith, length-append {0} (print (n / 100)) (46 ∷ pair (n % 100)))
length-plain false n = omega (arith, length-append {0} (print (n / 100)) (46 ∷ pair (n % 100)))

every-plain : (minus : Bool) (n : ℕ) → every not_space (plain minus n) ≡ true
unfolding is_space every
every-plain true n =
    every-unsigned (print (n / 100)) (pair (n % 100)) (every-print (n / 100))
      (pair-digits (n % 100) (omega arith))
every-plain false n =
    every-unsigned (print (n / 100)) (pair (n % 100)) (every-print (n / 100))
      (pair-digits (n % 100) (omega arith))

value-plain :
    (n : ℕ) → value 0 (print (n / 100)) * 100 + value 0 (cents_digits (pair (n % 100))) ≡ n
unfolding pad_end
value-plain n = rw (value-print, value-pair (n % 100) (omega arith)) (omega arith)

parse_amount-plain : (c : ℤ) → parse_amount (plain (is_negative c) (magnitude c)) ≡ some c
parse_amount-plain (pos n) =
    parse_amount-digits _ _ (every-print (n / 100)) (is_empty-print (n / 100))
      (pair-digits (n % 100) (omega arith)) refl
    ∙ ap (λ k. some (pos k)) (value-plain n)
parse_amount-plain (negsuc n) =
    let m = suc n in
    parse_amount-minus _ _ (every-print (m / 100)) (is_empty-print (m / 100))
      (pair-digits (m % 100) (omega arith)) refl
    ∙ ap (λ k. some (pos 0 -ℤ pos k)) (value-plain m)
    ∙ (unfold ◌-ℤ◌ in ground arith)

digit_not_comma : (c : ℕ) → is_digit c ≡ true → differs 44 c ≡ true
digit_not_comma c h = ground arith

no_comma : (n : ℕ) → every (differs 44) (plain false n) ≡ true
no_comma n =
    every-append (differs 44) (print (n / 100)) (46 ∷ pair (n % 100))
      (every_mono is_digit (differs 44) (print (n / 100)) digit_not_comma (every-print (n / 100)))
      (unfold every in
        every_mono is_digit (differs 44) (pair (n % 100)) digit_not_comma
          (pair-digits (n % 100) (omega arith)))

-- Reading back what `fromCents` prints gives the same number of cents, for every integer.
pub to_cents-from_cents : (c : ℤ) → to_cents (some (from_cents (some c))) ≡ some c
to_cents-from_cents c =
    to_cents-parse_amount _ _ (keep-from_cents c) (every-plain (is_negative c) (magnitude c))
      (length-plain (is_negative c) (magnitude c))
    ∙ parse_amount-plain c

-- So does what `toFixed(2)` prints of a hundredth of the cents.
pub to_cents-plain :
    (n : ℕ) → to_cents (some (print (n / 100) ++ 46 ∷ pair (n % 100))) ≡ some (pos n)
to_cents-plain n =
    to_cents-parse_amount _ _ (keep-every (differs 44) (plain false n) (no_comma n))
      (every-plain false n) (length-plain false n)
    ∙ parse_amount-plain (pos n)
