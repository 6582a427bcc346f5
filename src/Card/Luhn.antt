-- ===== src/Card/Luhn.antt =====
-- The card numbers are valid by the Luhn rule, of the right length and from the right range.
use mathlib.Core.List.{reverse, reverse-append}
use ikarin_bank.Prelude.{
  ℕ, zero, suc, ◌+◌, ◌-◌, ◌*◌, ◌/◌, ◌%◌, ◌<◌, ◌≡◌, refl, sym, ap, ◌∙◌, Bool, true, false, not, [],
  ◌∷◌, ◌++◌, arith, ltb, ◌==◌, if◌then◌else◌, length, length-append, take, append_assoc, append-nil,
  &&-true,
}
use ikarin_bank.Text.{Text, codes, is_digit, every}
use ikarin_bank.Text.Laws.{every-append}
use ikarin_bank.Text.Decimal.{print_below_ten}
use ikarin_bank.Card.{
  add_random_digits, luhn_digit, luhn_loop, luhn_check_digit, generate_virtual_card_number,
}

-- The Luhn rule, read from the last digit on: every second digit is doubled, and the two digits of a
-- double are added.
abbrev pub digit_total : ℕ → ℕ
digit_total n = n / 10 + n % 10

abbrev pub luhn_total : Bool → Text → ℕ
luhn_total doubled [] = 0
luhn_total true (c ∷ s) = digit_total ((c - 48) * 2) + luhn_total false s
luhn_total false (c ∷ s) = (c - 48) + luhn_total true s

abbrev pub IsLuhn : Text → Type 0
IsLuhn s = luhn_total false (reverse s) % 10 ≡ 0

parity : (i : ℕ) → (suc i % 2 == 0) ≡ not (i % 2 == 0)
parity i = ground arith

double_digit : (d : ℕ) → d < 10 → (if ltb 9 (d * 2) then d * 2 - 9 else d * 2) ≡ digit_total (d * 2)
double_digit d h = ground arith

luhn_step :
    (b : Bool) (c : ℕ) (s : Text) (i : ℕ)
    → is_digit c ≡ true
    → (i % 2 == 0) ≡ b
    → luhn_digit i (c - 48) + luhn_total (not b) s ≡ luhn_total b (c ∷ s)
unfolding luhn_digit
luhn_step true c s i h e =
    rw e (ap (λ n. n + luhn_total false s) (double_digit (c - 48) (ground arith)))
luhn_step false c s i h e = rw e

-- The loop of the source computes the Luhn total, doubling in the even rounds.
luhn_loop-total :
    (s : Text) (i sum : ℕ)
    → every is_digit s ≡ true
    → luhn_loop s i sum ≡ sum + luhn_total (i % 2 == 0) s
unfolding luhn_loop every
luhn_loop-total [] i sum h = omega arith
luhn_loop-total (c ∷ s) i sum h =
    let (hc, hs) = &&-true (is_digit c) (every is_digit s) h in
    let rest : luhn_loop s (suc i) (sum + luhn_digit i (c - 48))
        ≡ sum + luhn_digit i (c - 48) + luhn_total (not (i % 2 == 0)) s =
      rw (← parity i) (luhn_loop-total s (suc i) (sum + luhn_digit i (c - 48)) hs) in
    omega (arith, rest, luhn_step (i % 2 == 0) c s i hc refl)

every-reverse : (p : ℕ → Bool) (s : Text) → every p s ≡ true → every p (reverse s) ≡ true
unfolding every
every-reverse p [] h = refl
every-reverse p (c ∷ s) h =
    rw (reverse-append (c ∷ []) s)
      (every-append p (reverse s) (c ∷ []) (ground (arith, every-reverse p s)) (ground arith))

-- The eleven rounds add eleven digits.
add_random_digits_lem :
    (draw : ℕ → ℕ) (count i : ℕ) (s : Text)
    → ((j : ℕ) → draw j < 10)
    → every is_digit s ≡ true
    → (out : Text) × (add_random_digits draw count i s ≡ s ++ out)
      × (length out ≡ count)
      × (every is_digit out ≡ true)
unfolding add_random_digits every
add_random_digits_lem draw zero i s bound h = ([], sym (append-nil s), refl, refl)
add_random_digits_lem draw (suc count) i s bound h =
    let c = 48 + draw i in
    let is_d : is_digit c ≡ true = ground (arith, bound i) in
    let (out, e, l, ds) =
      add_random_digits_lem draw count (suc i) (s ++ c ∷ []) bound
        (every-append is_digit s (c ∷ []) h (ground arith)) in
    (
      c ∷ out,
      rw (print_below_ten (draw i) (bound i)) (e ∙ append_assoc s (c ∷ []) out),
      omega (arith, l),
      ground arith,
    )

-- A check digit behind digits makes the Luhn total a multiple of ten.
check_digit-IsLuhn :
    (s : Text)
    → every is_digit s ≡ true
    → (luhn_check_digit s < 10) × IsLuhn (s ++ (48 + luhn_check_digit s) ∷ [])
unfolding luhn_check_digit
check_digit-IsLuhn s h =
    let total : luhn_loop (reverse s) 0 0 ≡ 0 + luhn_total true (reverse s) =
      luhn_loop-total (reverse s) 0 0 (every-reverse is_digit s h) in
    (omega arith, rw (reverse-append s ((48 + luhn_check_digit s) ∷ [])) (omega (arith, total)))

-- Whatever digits are drawn, the number of a virtual card has sixteen digits, begins with 4790, and is
-- valid by the Luhn rule.
pub generate_virtual_card_number-IsLuhn :
    (draw : ℕ → ℕ)
    → ((j : ℕ) → draw j < 10)
    → let s = generate_virtual_card_number draw in
      (length s ≡ 16) × (every is_digit s ≡ true) × (take 4 s ≡ codes "4790") × IsLuhn s
unfolding generate_virtual_card_number every
generate_virtual_card_number-IsLuhn draw bound =
    let (out, e, l, ds) = add_random_digits_lem draw 11 0 (codes "4790") bound refl in
    let digits = codes "4790" ++ out in
    let (small, luhn) = check_digit-IsLuhn digits ds in
    rw (e, print_below_ten (luhn_check_digit digits) small)
      (
        omega (arith, l, length-append {0} out ((48 + luhn_check_digit digits) ∷ [])),
        every-append is_digit digits ((48 + luhn_check_digit digits) ∷ []) ds (ground arith),
        refl,
        luhn,
      )
