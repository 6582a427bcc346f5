-- ===== src/Text/Float.antt =====
-- `parseFloat`, exactly: the number that a text spells, before it is rounded to a double.
use ikarin_bank.Prelude.{
  ℕ, ◌≡◌, refl, Bool, true, false, ◌&&◌, ◌||◌, [], ◌∷◌, ◌++◌, ◌==◌, if◌then◌else◌, length, drop,
  &&-true, arith,
}
use ikarin_bank.Prelude.Int.{ℤ, pos, ◌-ℤ◌}
use ikarin_bank.Text.{Text, codes, is_digit, every, is_empty, is_space, starts_with, trim_start}
use ikarin_bank.Text.Decimal.{value, digit_prefix}

-- NaN, an infinity, or a mantissa times a power of ten: `finite minus m p e` is `m * 10 ^ (e - p)`.
pub data Number : Type 0 where
  not_a_number : Number
  infinite : (minus : Bool) → Number
  finite : (minus : Bool) (mantissa places : ℕ) (exponent : ℤ) → Number

-- The digits at the front, and what is behind them.
abbrev behind_digits : Text → Text
behind_digits s = drop (length (digit_prefix s)) s

-- The exponent behind an `e`; one without digits is not read.
exponent_digits : Bool → Text → ℤ
unfolding digit_prefix value
exponent_digits minus s =
    let n = value 0 (digit_prefix s) in if minus then pos 0 -ℤ pos n else pos n

exponent : Text → ℤ
unfolding exponent_digits
exponent [] = pos 0
exponent (c ∷ []) = pos 0
exponent (c ∷ d ∷ s) =
    if c == 101 || c == 69
    then if d == 45
      then exponent_digits true s
      else if d == 43
      then exponent_digits false s
      else exponent_digits false (d ∷ s)
    else pos 0

-- The number behind the digits before the point: `s` is what is left.
with_fraction : Bool → Text → Text → Number
unfolding exponent
with_fraction minus whole [] =
    if is_empty whole then not_a_number else finite minus (value 0 whole) 0 (pos 0)
with_fraction minus whole (c ∷ s) =
    let fraction = digit_prefix s in
    if c == 46
    then if is_empty whole && is_empty fraction
      then not_a_number
      else finite minus (value 0 (whole ++ fraction)) (length fraction) (exponent (behind_digits s))
    else if is_empty whole
    then not_a_number
    else finite minus (value 0 whole) 0 (exponent (c ∷ s))

unsigned : Bool → Text → Number
unfolding with_fraction starts_with
unsigned minus s =
    if starts_with s (codes "Infinity")
    then infinite minus
    else with_fraction minus (digit_prefix s) (behind_digits s)

signed : Text → Number
unfolding unsigned
signed [] = not_a_number
signed (c ∷ s) =
    if c == 45
    then unsigned true s
    else if c == 43
    then unsigned false s
    else unsigned false (c ∷ s)

unfoldable pub parse_float : Text → Number
unfolding signed trim_start
parse_float s = signed (trim_start s)

digit_prefix-append :
    (ds s : Text) (c : ℕ)
    → every is_digit ds ≡ true
    → is_digit c ≡ false
    → digit_prefix (ds ++ c ∷ s) ≡ ds
unfolding digit_prefix every
digit_prefix-append [] s c h g = ground arith
digit_prefix-append (d ∷ ds) s c h g = ground (arith, digit_prefix-append ds s c)

digit_prefix-all : (s : Text) → every is_digit s ≡ true → digit_prefix s ≡ s
unfolding digit_prefix every
digit_prefix-all [] h = refl
digit_prefix-all (c ∷ s) h = ground (arith, digit_prefix-all s)

drop-append : (s t : Text) → drop (length s) (s ++ t) ≡ t
drop-append [] t = refl
drop-append (c ∷ s) t = drop-append s t

drop-all : (s : Text) → drop (length s) s ≡ []
drop-all [] = refl
drop-all (c ∷ s) = drop-all s

not_infinity :
    (d : ℕ) (s : Text) → is_digit d ≡ true → starts_with (d ∷ s) (codes "Infinity") ≡ false
unfolding starts_with
not_infinity d s h = ground arith

fraction-decimal :
    (whole ts : Text)
    → is_empty whole ≡ false
    → every is_digit ts ≡ true
    → with_fraction false whole (46 ∷ ts) ≡ finite false (value 0 (whole ++ ts)) (length ts) (pos 0)
unfolding with_fraction exponent
fraction-decimal whole ts n g = rw (n, digit_prefix-all ts g, drop-all ts) refl

unsigned-decimal :
    (ds ts : Text)
    → every is_digit ds ≡ true
    → is_empty ds ≡ false
    → every is_digit ts ≡ true
    → unsigned false (ds ++ 46 ∷ ts) ≡ finite false (value 0 (ds ++ ts)) (length ts) (pos 0)
unfolding unsigned every
unsigned-decimal [] ts h n g = ground arith
unsigned-decimal (d ∷ ds) ts h n g =
    let (first, _) = &&-true _ _ h in
    rw
      (
        not_infinity d (ds ++ 46 ∷ ts) first,
        digit_prefix-append (d ∷ ds) ts 46 h refl,
        drop-append (d ∷ ds) (46 ∷ ts),
      )
      (fraction-decimal (d ∷ ds) ts n g)

-- Digits around a point are read as all the digits, with as many places as there are behind the point.
pub parse_float-decimal :
    (ds ts : Text)
    → every is_digit ds ≡ true
    → is_empty ds ≡ false
    → every is_digit ts ≡ true
    → parse_float (ds ++ 46 ∷ ts) ≡ finite false (value 0 (ds ++ ts)) (length ts) (pos 0)
unfolding parse_float signed trim_start every is_space
parse_float-decimal [] ts h n g = ground arith
parse_float-decimal (d ∷ ds) ts h n g = ground (arith, unsigned-decimal (d ∷ ds) ts h n g)
