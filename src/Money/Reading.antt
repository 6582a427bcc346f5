-- ===== src/Money/Reading.antt =====
-- What `toCents` makes of texts that are not `fromCents` prints, and of formatted amounts.
use ikarin_bank.Prelude.{
  ℕ, suc, ◌+◌, ◌*◌, ◌/◌, ◌%◌, ◌<◌, ◌≡◌, refl, ap, ◌∙◌, Bool, true, false, [], ◌∷◌, ◌++◌, none, some,
  arith, length, length-append,
}
use ikarin_bank.Prelude.Int.{ℤ, pos, negsuc}
use ikarin_bank.Text.{
  Text, is_digit, is_space, keep, every, is_empty, starts_with, split_at, pad_start,
}
use ikarin_bank.Text.Laws.{
  differs, keep-every, every_mono, every-append, digit_not_space, not_space,
}
use ikarin_bank.Text.Decimal.{value, print, group, parse_int, every-print, is_empty-print}
use ikarin_bank.Money.{to_cents, from_cents, parse_amount, format_currency, dollars_text}
use ikarin_bank.Money.RoundTrip.{
  cents_digits, pair, pad-print, pair-digits, to_cents-parse_amount, parse_amount-digits,
  every-unsigned, to_cents-from_cents,
}

digit_not_comma : (c : ℕ) → is_digit c ≡ true → differs 44 c ≡ true
digit_not_comma c h = ground arith

keep-unsigned :
    (ds ts : Text)
    → every is_digit ds ≡ true
    → every is_digit ts ≡ true
    → keep (differs 44) (ds ++ 46 ∷ ts) ≡ ds ++ 46 ∷ ts
unfolding every
keep-unsigned ds ts hd ht = keep-every (differs 44) (ds ++ 46 ∷ ts) (
    every-append (differs 44) ds (46 ∷ ts) (every_mono is_digit (differs 44) ds digit_not_comma hd)
      (every_mono is_digit (differs 44) ts digit_not_comma ht))

long_unsigned : (ds ts : Text) → is_empty ds ≡ false → 1 < length (ds ++ 46 ∷ ts)
long_unsigned [] ts h = ground arith
long_unsigned (d ∷ ds) ts h = omega (arith, length-append {0} ds (46 ∷ ts))

-- Digits, a point and more digits are read as that many dollars, and as the cents that the first two
-- digits behind the point spell (a zero stands for a second one that is missing): further digits are
-- cut off and never round the amount.
to_cents_truncates :
    (ds ts : Text)
    → every is_digit ds ≡ true
    → is_empty ds ≡ false
    → every is_digit ts ≡ true
    → is_empty ts ≡ false
    → to_cents (some (ds ++ 46 ∷ ts)) ≡ some (pos (value 0 ds * 100 + value 0 (cents_digits ts)))
to_cents_truncates ds ts hd nd ht nt =
    to_cents-parse_amount (ds ++ 46 ∷ ts) (ds ++ 46 ∷ ts) (keep-unsigned ds ts hd ht)
      (every-unsigned ds ts hd ht) (long_unsigned ds ts nd)
    ∙ parse_amount-digits ds ts hd nd ht nt

digit_not_point : (c : ℕ) → is_digit c ≡ true → differs 46 c ≡ true
digit_not_point c h = ground arith

parse_amount-no_dollars :
    (ts : Text) → every (differs 46) ts ≡ true → parse_amount (45 ∷ 46 ∷ ts) ≡ none
unfolding parse_amount split_at starts_with parse_int
parse_amount-no_dollars ts h = refl

-- A minus sign right before the point is read as NaN, whatever digits follow the point.
to_cents_minus_point :
    (t : ℕ) (ts : Text)
    → is_digit t ≡ true
    → every is_digit ts ≡ true
    → to_cents (some (45 ∷ 46 ∷ t ∷ ts)) ≡ none
unfolding every is_space
to_cents_minus_point t ts h hs =
    to_cents-parse_amount (45 ∷ 46 ∷ t ∷ ts) (45 ∷ 46 ∷ t ∷ ts)
      (keep-every (differs 44) (45 ∷ 46 ∷ t ∷ ts)
        (every_mono is_digit (differs 44) (t ∷ ts) digit_not_comma (ground arith)))
      (every_mono is_digit not_space (t ∷ ts) digit_not_space (ground arith)) (omega arith)
    ∙ parse_amount-no_dollars (t ∷ ts)
        (every_mono is_digit (differs 46) (t ∷ ts) digit_not_point (ground arith))

digit_not_dollar : (c : ℕ) → is_digit c ≡ true → differs 36 c ≡ true
digit_not_dollar c h = ground arith

every-group : (p : ℕ → Bool) (s : Text) → p 44 ≡ true → every p s ≡ true → every p (group s) ≡ true
unfolding every group
every-group p [] h hs = refl
every-group p (c ∷ s) h hs = ground (arith, every-group p s)

every-dollars_text : (n : ℕ) → every (differs 36) (dollars_text n) ≡ true
unfolding dollars_text
every-dollars_text n =
    let whole : every (differs 36) (print (n / 100)) ≡ true =
      every_mono is_digit (differs 36) (print (n / 100)) digit_not_dollar (every-print (n / 100)) in
    let part : every (differs 36) (pair (n % 100)) ≡ true =
      every_mono is_digit (differs 36) (pair (n % 100)) digit_not_dollar
        (pair-digits (n % 100) (omega arith)) in
    rw (pad-print (n % 100) (omega arith)) (
      every-append (differs 36) (group (print (n / 100))) (46 ∷ pair (n % 100))
        (every-group (differs 36) (print (n / 100)) refl whole) (unfold every in part))

starts_with-group :
    (s t : Text)
    → every is_digit s ≡ true
    → is_empty s ≡ false
    → starts_with (group s ++ t) (45 ∷ []) ≡ false
unfolding every group starts_with
starts_with-group [] t h e = ground arith
starts_with-group (c ∷ s) t h e = ground arith

starts_with-dollars_text : (n : ℕ) → starts_with (dollars_text n) (45 ∷ []) ≡ false
unfolding dollars_text
starts_with-dollars_text n =
    starts_with-group (print (n / 100)) (46 ∷ pad_start 2 48 (print (n % 100)))
      (every-print (n / 100)) (is_empty-print (n / 100))

keep-format_currency :
    (c : ℤ) → keep (differs 36) (format_currency (some c) true) ≡ from_cents (some c)
unfolding format_currency from_cents
keep-format_currency (pos n) =
    rw (starts_with-dollars_text n)
      (unfold keep in keep-every (differs 36) (dollars_text n) (every-dollars_text n))
keep-format_currency (negsuc n) =
    unfold keep starts_with in
    ap (λ s. 45 ∷ s) (keep-every (differs 36) (dollars_text (suc n)) (every-dollars_text (suc n)))

-- A formatted amount, its dollar sign taken out, is what `fromCents` prints, and reads back as the
-- same cents.
to_cents-format_currency :
    (c : ℤ)
    → (keep (differs 36) (format_currency (some c) true) ≡ from_cents (some c))
      × (to_cents (some (keep (differs 36) (format_currency (some c) true))) ≡ some c)
to_cents-format_currency c =
    (keep-format_currency c, rw (keep-format_currency c) (to_cents-from_cents c))
