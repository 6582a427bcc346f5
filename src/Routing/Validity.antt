-- ===== src/Routing/Validity.antt =====
-- When `validateRoutingNumber` accepts, and what it reports when it does not.
use ikarin_bank.Prelude.{
  ℕ, ◌-◌, ◌%◌, ◌≡◌, ◌↔◌, ◌≢◌, ◌⊎◌, refl, true, false, not, ◌&&◌, [], ◌∷◌, ◌++◌, Option, none, some,
  arith, ◌==◌, if◌then◌else◌, length, take, get_elem?, Bool-cases, Option-cases, inl, inr,
  length-take, ==_iff, &&-true, sym,
}
use ikarin_bank.Text.{Text, is_digit, every, text_eq, trim}
use ikarin_bank.Text.Laws.{not-text_eq}
use ikarin_bank.Text.Decimal.{value}
use ikarin_bank.Routing.{
  weights, compute_routing_check_digit, digit, validate_routing_number, validate_check_digit,
  validate_district, get_federal_reserve_district, nine_zeros, number_of_unit, routing_number_regex,
  account_number_regex, number_at, RoutingValidationResult, invalid_length, not_digits, same_number,
}
use ikarin_bank.Routing.CheckDigit.{
  checksum, all_weights, checksum-last, complement_iff, compute_check_digit-digits, every-take,
  IsPrefixOfDistrict, district_iff,
}

-- Nine digits.
abbrev pub IsNineDigits : Text → Type 0
IsNineDigits t = (length t ≡ 9) × (every is_digit t ≡ true)

-- What the source's comment asks of a routing number.
abbrev pub IsRoutingNumber : Text → Type 0
IsRoutingNumber t =
    (length t ≡ 9)
    × (every is_digit t ≡ true)
    × (t ≢ nine_zeros)
    × (checksum all_weights t % 10 ≡ 0)
    × IsPrefixOfDistrict (value 0 (take 2 t))

compute-take :
    (t : Text)
    → IsNineDigits t
    → compute_routing_check_digit (take 8 t)
      ≡ digit (some ((10 - checksum weights (take 8 t) % 10) % 10))
compute-take t h =
    compute_check_digit-digits (take 8 t) (omega (arith, length-take {0} 8 t, h.0))
      (every-take is_digit 8 t h.1)

validate_district-valid :
    (t : Text) → ((validate_district t).valid ≡ true) ↔ IsPrefixOfDistrict (value 0 (take 2 t))
unfolding validate_district
validate_district-valid t =
    let n = value 0 (take 2 t) in
    elim (Option-cases (get_federal_reserve_district n)) [
      | inl e ↦ (λ h. absurd (ground arith), λ h. absurd ((district_iff n).1 h e))
      | inr (d, e) ↦ (λ h. (district_iff n).0 (λ e'. ground arith), λ h. ground arith)
    ]

number_at-digit :
    (t : Text) (i c : ℕ)
    → get_elem? t i ≡ some c
    → is_digit c ≡ true
    → number_at t i ≡ some (c - 48)
unfolding number_of_unit
number_at-digit t i c at h = ground arith

-- The last digit is compared with the expected one before the prefix is looked at.
validate_check_digit-step :
    (t : Text) (d e : ℕ)
    → number_at t 8 ≡ some d
    → (validate_check_digit t (digit (some e))).valid ≡ (d == e && (validate_district t).valid)
unfolding validate_check_digit
validate_check_digit-step t d e at = ground arith

-- On nine digits the answer turns on the weighted sum and on the prefix.
validate_check_digit-valid :
    (t : Text)
    → IsNineDigits t
    → ((validate_check_digit t (compute_routing_check_digit (take 8 t))).valid ≡ true)
      ↔ ((checksum all_weights t % 10 ≡ 0) × IsPrefixOfDistrict (value 0 (take 2 t)))
validate_check_digit-valid t h =
    let (c, at, is_d, total) = checksum-last weights 1 t h.0 h.1 in
    let expected = (10 - checksum weights (take 8 t) % 10) % 10 in
    let (to_sum, from_sum) = complement_iff (checksum weights (take 8 t)) (c - 48) (ground arith) in
    let (to_prefix, from_prefix) = validate_district-valid t in
    let step : (validate_check_digit t (compute_routing_check_digit (take 8 t))).valid
        ≡ (c - 48 == expected && (validate_district t).valid) =
      rw (compute-take t h)
        (validate_check_digit-step t (c - 48) expected (number_at-digit t 8 c at is_d)) in
    (
      λ v.
          let (same, prefix) = &&-true _ _ (rw step at v) in
          (rw total (to_sum (sym ((==_iff (c - 48) expected).0 same))), to_prefix prefix),
      λ (sum, prefix). rw (
        step,
        (==_iff (c - 48) expected).1 (sym (from_sum (rw total at sum))),
        from_prefix prefix,
      ),
    )

validate-step :
    (s : Text)
    → let t = trim s in
      (validate_routing_number s).valid ≡ (
        routing_number_regex t
        && (not (text_eq t nine_zeros)
            && (validate_check_digit t (compute_routing_check_digit (take 8 t))).valid))
unfolding validate_routing_number
validate-step s = ground arith

regex_iff : (t : Text) → (routing_number_regex t ≡ true) ↔ IsNineDigits t
unfolding routing_number_regex
regex_iff t = (λ h. ground arith, λ h. ground arith)

-- `validateRoutingNumber` accepts a text exactly when it is, trimmed, nine digits that are not all
-- zeros, whose sum weighted by 3, 7, 1 over and over is a multiple of ten, and whose first two digits
-- spell a number in one of the ranges of the districts.
pub valid_iff : (s : Text) → ((validate_routing_number s).valid ≡ true) ↔ IsRoutingNumber (trim s)
valid_iff s =
    let t = trim s in
    (
      λ v.
          let (regex, rest) = &&-true _ _ (rw (validate-step s) at v) in
          let (zeros, checked) = &&-true _ _ rest in
          let nine = (regex_iff t).0 regex in
          let (sum, prefix) = (validate_check_digit-valid t nine).0 checked in
          (nine.0, nine.1, (not-text_eq t nine_zeros).0 zeros, sum, prefix),
      λ (nine, digits, zeros, sum, prefix). rw (
        validate-step s,
        (regex_iff t).1 (nine, digits),
        (not-text_eq t nine_zeros).1 zeros,
        (validate_check_digit-valid t (nine, digits)).1 (sum, prefix),
      ),
    )

-- The fields of an answer agree: it accepts, lists no error and names a district, or it does none of
-- these.
abbrev pub IsConsistent : RoutingValidationResult → Type 0
IsConsistent r =
    ((r.valid ≡ true) × (r.errors ≡ []) × (r.federal_reserve_district ≢ none))
    ⊎ ((r.valid ≡ false) × (r.errors ≢ []) × (r.federal_reserve_district ≡ none))

validate_district-IsConsistent : (t : Text) → IsConsistent (validate_district t)
unfolding validate_district
validate_district-IsConsistent t =
    elim (Option-cases (get_federal_reserve_district (value 0 (take 2 t)))) [
      | inl e ↦ inr (ground arith, ground arith, ground arith)
      | inr (d, e) ↦ inl (ground arith, ground arith, ground arith)
    ]

validate_check_digit-IsConsistent :
    (t : Text) (e : Option ℕ) → IsConsistent (validate_check_digit t (digit e))
unfolding validate_check_digit
validate_check_digit-IsConsistent t e = elim (Bool-cases (same_number (number_at t 8) e)) [
  | inl same ↦ rw same (validate_district-IsConsistent t)
  | inr differ ↦ rw differ (inr (refl, ground arith, refl))
]

regex_errors :
    (t : Text)
    → routing_number_regex t ≡ false
    → (if not (length t == 9) then invalid_length (length t) ∷ [] else [])
        ++ (if not (account_number_regex t) then not_digits ∷ [] else [])
      ≢ []
unfolding routing_number_regex account_number_regex
regex_errors [] h = ground arith
regex_errors (c ∷ t) h = ground arith

-- Whatever the text, the answer of `validateRoutingNumber` either accepts, with no error and a
-- district, or refuses, with an error at least and no district.
pub validate_routing_number-IsConsistent : (s : Text) → IsConsistent (validate_routing_number s)
unfolding validate_routing_number
validate_routing_number-IsConsistent s =
    let t = trim s in
    elim (Bool-cases (routing_number_regex t)) [
      | inr e ↦ rw e (inr (refl, regex_errors t e, refl))
      | inl e ↦ elim (Bool-cases (text_eq t nine_zeros)) [
        | inl z ↦ rw (e, z) (inr (refl, ground arith, refl))
        | inr z ↦
            rw (e, z, compute-take t ((regex_iff t).0 e)) (validate_check_digit-IsConsistent t _)
      ]
    ]
