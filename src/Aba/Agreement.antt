-- ===== src/Aba/Agreement.antt =====
-- The two validations of routing numbers, of frontend/lib/routingUtils.ts and of
-- frontend/lib/neobank/utils.ts, compared.
use ikarin_bank.Prelude.{
  ◌%◌, ◌≡◌, ◌↔◌, refl, sym, ◌∙◌, true, [], ◌∷◌, none, some, length, take, arith, Bool-cases, inl,
  inr,
}
use ikarin_bank.Text.{Text, codes, is_digit, is_space, keep, trim, trim_start, trim_end, is_empty}
use ikarin_bank.Text.Laws.{keep-every}
use ikarin_bank.Routing.{validate_routing_number}
use ikarin_bank.Routing.CheckDigit.{checksum, all_weights}
use ikarin_bank.Routing.Validity.{valid_iff}
use ikarin_bank.Aba.{validate_aba_routing, aba_checksum, fed_district_map, lookup_or}

aba_checksum-checksum : (t : Text) → length t ≡ 9 → aba_checksum t ≡ checksum all_weights t
unfolding checksum aba_checksum
aba_checksum-checksum (a ∷ b ∷ c ∷ d ∷ e ∷ f ∷ g ∷ h ∷ i ∷ []) l = omega arith
aba_checksum-checksum _ l = absurd (omega arith)

-- `validateAbaRouting` accepts a text exactly when it holds nine digits, whatever stands between them,
-- whose sum weighted by 3, 7, 1 over and over is a multiple of ten.
validate_aba_routing_iff :
    (s : Text)
    → ((validate_aba_routing s).valid ≡ true)
      ↔ ((length (keep is_digit s) ≡ 9) × (checksum all_weights (keep is_digit s) % 10 ≡ 0))
unfolding validate_aba_routing
validate_aba_routing_iff s =
    let t = keep is_digit s in
    (
      λ v. ground (arith, aba_checksum-checksum t),
      λ (l, sum). ground (arith, aba_checksum-checksum t),
    )

keep-trim_start : (s : Text) → keep is_digit (trim_start s) ≡ keep is_digit s
unfolding keep trim_start is_space
keep-trim_start [] = refl
keep-trim_start (c ∷ s) = ground (arith, keep-trim_start s)

is_empty→nil : (s : Text) → is_empty s ≡ true → s ≡ []
is_empty→nil [] h = refl
is_empty→nil (c ∷ s) h = ground arith

keep-trim_end : (s : Text) → keep is_digit (trim_end s) ≡ keep is_digit s
unfolding keep trim_end is_space
keep-trim_end [] = refl
keep-trim_end (c ∷ s) = elim (Bool-cases (is_empty (trim_end s))) [
  | inl e ↦
      let gone : trim_end s ≡ [] = is_empty→nil (trim_end s) e in
      let ih : keep is_digit [] ≡ keep is_digit s = rw gone at (keep-trim_end s) in ground arith
  | inr e ↦ ground (arith, keep-trim_end s)
]

keep-trim : (s : Text) → keep is_digit (trim s) ≡ keep is_digit s
unfolding trim
keep-trim s = keep-trim_end (trim_start s) ∙ keep-trim_start s

-- What `validateRoutingNumber` accepts, `validateAbaRouting` accepts too, and it returns the trimmed
-- text as the number, with the district of its first two digits.
pub validate_aba_routing-agrees :
    (s : Text)
    → (validate_routing_number s).valid ≡ true
    → validate_aba_routing s ≡ record {
      valid = true;
      district =
          some (lookup_or (take 2 (trim s)) fed_district_map (codes "Federal Reserve System"));
      routing = some (trim s);
      error = none;
    }
unfolding validate_aba_routing
validate_aba_routing-agrees s v =
    let (l, digits, _, sum, _) = (valid_iff s).0 v in
    rw (
      sym (keep-trim s) ∙ keep-every is_digit (trim s) digits,
      l,
      aba_checksum-checksum (trim s) l,
      sum,
    )
