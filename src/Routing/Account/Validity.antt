-- ===== src/Routing/Account/Validity.antt =====
-- When account numbers and pairs of accounts are accepted.
use ikarin_bank.Prelude.{
  ℕ, ◌+◌, ◌-◌, ◌%◌, ◌≤◌, ◌<◌, ◌≡◌, ◌↔◌, ◌≢◌, refl, ap, true, false, not, ◌&&◌, List, [], ◌∷◌, ◌++◌,
  none, some, ◌==◌, if◌then◌else◌, length, length-append, arith, inl, inr, &&-true,
}
use ikarin_bank.Text.{Text, is_digit, every, text_eq, trim}
use ikarin_bank.Text.Laws.{not-text_eq}
use ikarin_bank.Routing.{
  number_of_unit, RoutingError, account_number_regex, validate_routing_number,
  RoutingValidationResult,
}
use ikarin_bank.Routing.Validity.{IsConsistent, validate_routing_number-IsConsistent}
use ikarin_bank.Routing.Account.{
  no_check, mod9, mod10, without_last, last_number, digit_sum, compute_mod9_check_digit,
  compute_mod10_check_digit, detect_check_method, validate_account_number, validate_method,
  routing_errors, no_errors, validate_account_pair, PairError,
}

-- What an account number is when no check digit is asked for.
abbrev pub IsAccountNumber : Text → Type 0
IsAccountNumber t = (4 ≤ length t) × (length t ≤ 17) × (every is_digit t ≡ true)

-- With no method, `validateAccountNumber` accepts a text exactly when it is, trimmed, 4 to 17 digits.
validate_account_number_iff :
    (s : Text) → ((validate_account_number s no_check none).valid ≡ true) ↔ IsAccountNumber (trim s)
unfolding validate_account_number validate_method account_number_regex
validate_account_number_iff s = (λ h. ground arith, λ h. ground arith)

-- The sum of the digits of a text.
abbrev pub plain_sum : Text → ℕ
plain_sum [] = 0
plain_sum (c ∷ s) = (c - 48) + plain_sum s

digit_sum-plain_sum :
    (s : Text) (sum : ℕ)
    → every is_digit s ≡ true
    → digit_sum s (some sum) ≡ some (sum + plain_sum s)
unfolding digit_sum every number_of_unit
digit_sum-plain_sum [] sum h = ground arith
digit_sum-plain_sum (c ∷ s) sum h = ground (arith, digit_sum-plain_sum s (sum + (c - 48)))

without_last-append : (s : Text) (d : ℕ) → without_last (s ++ d ∷ []) ≡ s
without_last-append [] d = refl
without_last-append (c ∷ []) d = refl
without_last-append (c ∷ b ∷ s) d = ap (λ t. c ∷ t) (without_last-append (b ∷ s) d)

last_number-append : (s : Text) (d : ℕ) → last_number (s ++ d ∷ []) ≡ number_of_unit d
last_number-append [] d = refl
last_number-append (c ∷ []) d = refl
last_number-append (c ∷ b ∷ s) d = last_number-append (b ∷ s) d

plain_sum-append : (s : Text) (d : ℕ) → plain_sum (s ++ d ∷ []) ≡ plain_sum s + (d - 48)
plain_sum-append [] d = ground arith
plain_sum-append (c ∷ s) d = omega (arith, plain_sum-append s d)

-- On digits with a last digit `d`, `detectCheckMethod` lists `mod9` exactly when the other digits
-- leave `d` by nine, then `mod10` exactly when all digits add up to a multiple of ten.
detect_check_method_digits :
    (s : Text) (d : ℕ)
    → every is_digit s ≡ true
    → is_digit d ≡ true
    → 0 < length s
    → detect_check_method (s ++ d ∷ [])
      ≡ (if plain_sum s % 9 == d - 48 then mod9 ∷ [] else [])
        ++ (if plain_sum (s ++ d ∷ []) % 10 == 0 then mod10 ∷ [] else [])
unfolding detect_check_method compute_mod9_check_digit compute_mod10_check_digit number_of_unit
detect_check_method_digits s d hs hd l =
    rw
      (
        without_last-append s d,
        last_number-append s d,
        digit_sum-plain_sum s 0 hs,
        plain_sum-append s d,
        length-append s (d ∷ []),
      )
      (ground arith)

no_errors-routing_errors :
    (r : RoutingValidationResult) (rest : List PairError)
    → IsConsistent r
    → no_errors ((if not r.valid then routing_errors r.errors else []) ++ rest)
      ≡ (r.valid && no_errors rest)
no_errors-routing_errors r rest (inl (v, e, d)) = rw v
no_errors-routing_errors r rest (inr (v, e, d)) = rw v (some_error r.errors e)
  where
    some_error : (es : List RoutingError) → es ≢ [] → no_errors (routing_errors es ++ rest) ≡ false
    some_error [] e = absurd (e refl)
    some_error (x ∷ es) e = refl

validate_account_pair-valid :
    (r s d : Text)
    → (validate_account_pair r s d).valid ≡ (
        (validate_routing_number r).valid
        && ((validate_account_number s no_check none).valid
            && ((validate_account_number d no_check none).valid
                && not (text_eq (trim s) (trim d)))))
unfolding validate_account_pair
validate_account_pair-valid r s d =
    rw
      (no_errors-routing_errors (validate_routing_number r) _
        (validate_routing_number-IsConsistent r))
      (ground arith)

-- `validateAccountPair` accepts exactly when each of the three numbers is accepted by itself and the
-- two accounts differ once trimmed.
validate_account_pair_iff :
    (r s d : Text)
    → ((validate_account_pair r s d).valid ≡ true) ↔ (
        ((validate_routing_number r).valid ≡ true)
        × ((validate_account_number s no_check none).valid ≡ true)
        × ((validate_account_number d no_check none).valid ≡ true)
        × (trim s ≢ trim d))
validate_account_pair_iff r s d = (
  λ v.
      let (hr, rest) = &&-true _ _ (rw (validate_account_pair-valid r s d) at v) in
      let (hs, rest') = &&-true _ _ rest in
      let (hd, differ) = &&-true _ _ rest' in
      (hr, hs, hd, (not-text_eq (trim s) (trim d)).0 differ),
  λ (hr, hs, hd, differ).
      rw (validate_account_pair-valid r s d, hr, hs, hd, (not-text_eq (trim s) (trim d)).1 differ),
)
