-- ===== src/Text/Decimal.antt =====
-- Decimal numbers of the language: `Number` and `parseInt(s, 10)` of texts, and `toString` and
-- `toLocaleString('en-US')` of natural numbers.
use ikarin_bank.Prelude.{
  ℕ, zero, suc, ◌+◌, ◌-◌, ◌*◌, ◌/◌, ◌%◌, ◌<◌, ◌≡◌, refl, true, false, not, ◌&&◌, [], ◌∷◌, ◌++◌,
  Option, none, some, arith, ltb, ◌==◌, if◌then◌else◌, length,
}
use ikarin_bank.Prelude.Int.{ℤ, pos, ◌-ℤ◌}
use ikarin_bank.Text.{Text, is_digit, keep, every, is_empty, trim_start}
use ikarin_bank.Text.Laws.{
  differs, every-append, every_mono, digit_not_space, not_space, trim_start_lem,
}

-- The number that digits spell behind `acc`.
unfoldable pub value : ℕ → Text → ℕ
value acc [] = acc
value acc (c ∷ s) = value (acc * 10 + (c - 48)) s

-- A number has no more digits than its value and one.
digits_of : ℕ → ℕ → Text
digits_of zero n = []
digits_of (suc f) n =
    let rest = digits_of f (n / 10) ++ (48 + n % 10) ∷ [] in
    if ltb n 10 then (48 + n) ∷ [] else rest

-- `n.toString()`
unfoldable pub print : ℕ → Text
unfolding digits_of
print n = digits_of (suc n) n

-- The commas of `n.toLocaleString('en-US')`: one before each group of three digits but the first.
unfoldable pub group : Text → Text
group [] = []
group (c ∷ s) = c ∷ (if length s % 3 == 0 && not (is_empty s) then 44 ∷ group s else group s)

unfoldable pub digit_prefix : Text → Text
digit_prefix [] = []
digit_prefix (c ∷ s) = if is_digit c then c ∷ digit_prefix s else []

parse_digits : Text → Option ℕ
unfolding digit_prefix value
parse_digits s = let ds = digit_prefix s in if is_empty ds then none else some (value 0 ds)

parse_signed : Text → Option ℤ
unfolding parse_digits
parse_signed [] = none
parse_signed (c ∷ s) =
    if c == 45
    then elim (parse_digits s) [ none ↦ none | some n ↦ some (pos 0 -ℤ pos n) ]
    else if c == 43
    then elim (parse_digits s) [ none ↦ none | some n ↦ some (pos n) ]
    else elim (parse_digits (c ∷ s)) [ none ↦ none | some n ↦ some (pos n) ]

-- `parseInt(s, 10)`; `none` is NaN.
unfoldable pub parse_int : Text → Option ℤ
unfolding parse_signed trim_start
parse_int s = parse_signed (trim_start s)

pub value-append : (acc : ℕ) (s t : Text) → value acc (s ++ t) ≡ value (value acc s) t
unfolding value
value-append acc [] t = refl
value-append acc (c ∷ s) t = value-append (acc * 10 + (c - 48)) s t

value-digits_of : (f n : ℕ) → n < f → value 0 (digits_of f n) ≡ n
unfolding digits_of value
value-digits_of zero n h = elim h [ ]
value-digits_of (suc f) n h =
    ground (
      arith,
      value-digits_of f (n / 10),
      value-append 0 (digits_of f (n / 10)) ((48 + n % 10) ∷ []),
    )

-- The print of a number spells it.
pub value-print : (n : ℕ) → value 0 (print n) ≡ n
unfolding print
value-print n = value-digits_of (suc n) n (omega arith)

every-digits_of : (f n : ℕ) → every is_digit (digits_of f n) ≡ true
unfolding digits_of every
every-digits_of zero n = refl
every-digits_of (suc f) n = ground (
  arith,
  every-digits_of f (n / 10),
  every-append is_digit (digits_of f (n / 10)) ((48 + n % 10) ∷ []),
)

pub every-print : (n : ℕ) → every is_digit (print n) ≡ true
unfolding print
every-print n = every-digits_of (suc n) n

pub is_empty-append : (s : Text) (c : ℕ) → is_empty (s ++ c ∷ []) ≡ false
is_empty-append [] c = refl
is_empty-append (d ∷ s) c = refl

pub is_empty-print : (n : ℕ) → is_empty (print n) ≡ false
unfolding print digits_of
is_empty-print n = ground (arith, is_empty-append (digits_of n (n / 10)) (48 + n % 10))

-- A number below ten is printed as one digit, one below a hundred as at most two.
pub print_below_ten : (n : ℕ) → n < 10 → print n ≡ (48 + n) ∷ []
unfolding print digits_of
print_below_ten n h = ground arith

pub print_below_hundred : (n : ℕ) → 9 < n → n < 100 → print n ≡ (48 + n / 10) ∷ (48 + n % 10) ∷ []
unfolding print digits_of
print_below_hundred zero h g = absurd (omega arith)
print_below_hundred (suc n) h g = ground arith

digit_prefix_lem : (s : Text) → every is_digit s ≡ true → digit_prefix s ≡ s
unfolding digit_prefix every
digit_prefix_lem [] h = refl
digit_prefix_lem (c ∷ s) h = ground (arith, digit_prefix_lem s)

parse_signed-digits :
    (s : Text)
    → every is_digit s ≡ true
    → is_empty s ≡ false
    → parse_signed s ≡ some (pos (value 0 s))
unfolding parse_signed every
parse_signed-digits [] h g = ground arith
parse_signed-digits (c ∷ s) h g = ground (arith, digit_prefix_lem (c ∷ s))

-- Digits are read as the number that they spell.
pub parse_int-digits :
    (s : Text) → every is_digit s ≡ true → is_empty s ≡ false → parse_int s ≡ some (pos (value 0 s))
unfolding parse_int
parse_int-digits s h g =
    rw (trim_start_lem s (every_mono is_digit not_space s digit_not_space h))
      (parse_signed-digits s h g)

-- Grouping adds commas and no other unit.
pub keep-group : (s : Text) → every is_digit s ≡ true → keep (differs 44) (group s) ≡ s
unfolding group keep every
keep-group [] h = refl
keep-group (c ∷ s) h = ground (arith, keep-group s)
