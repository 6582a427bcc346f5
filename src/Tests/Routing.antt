-- ===== src/Tests/Routing.antt =====
-- Routing and account numbers on concrete texts.
use ikarin_bank.Prelude.{
  ◌≡◌, ◌↔◌, refl, true, false, List, [], ◌∷◌, some, none, arith, length, set, take, ◌<◌,
}
use ikarin_bank.Text.{Text, codes, is_digit, keep, every, trim, text_eq, join}
use ikarin_bank.Text.Decimal.{value}
use ikarin_bank.Routing.{
  validate_routing_number, routing_number_regex, compute_routing_check_digit, weighted_sum,
  number_of_unit, validate_check_digit, validate_district, get_federal_reserve_district,
}
use ikarin_bank.Routing.Validity.{IsRoutingNumber, valid_iff}
use ikarin_bank.Routing.Detection.{single_digit_slip}
use ikarin_bank.Routing.Account.{format_account_number, split_groups}
use ikarin_bank.Routing.Account.Groups.{AreGroups, format_account_number_digits}
use ikarin_bank.Aba.{validate_aba_routing, aba_checksum, fed_district_map, lookup_or}
use ikarin_bank.Aba.Agreement.{validate_aba_routing-agrees}

chase_valid : (validate_routing_number (codes " 021000021 ")).valid ≡ true
unfolding validate_routing_number routing_number_regex compute_routing_check_digit weighted_sum
    number_of_unit validate_check_digit validate_district get_federal_reserve_district trim every
    value text_eq
chase_valid = refl

wells_fargo : (validate_routing_number (codes "121042882")).valid ≡ true
unfolding validate_routing_number routing_number_regex compute_routing_check_digit weighted_sum
    number_of_unit validate_check_digit validate_district get_federal_reserve_district trim every
    value text_eq
wells_fargo = refl

zeros_refused : (validate_routing_number (codes "000000000")).valid ≡ false
unfolding validate_routing_number routing_number_regex trim every text_eq
zeros_refused = refl

-- The other validation takes nine zeros for a number.
zeros_accepted : (validate_aba_routing (codes "000000000")).valid ≡ true
unfolding validate_aba_routing keep aba_checksum
zeros_accepted = refl

groups_of_ten : format_account_number (codes "1234567890") ≡ some (codes "12-3456-7890")
unfolding format_account_number split_groups keep join
groups_of_ten = refl

valid_iff_example :
    ((validate_routing_number (codes "021000021")).valid ≡ true)
    ↔ IsRoutingNumber (trim (codes "021000021"))
valid_iff_example = valid_iff (codes "021000021")

single_digit_slip_example : (validate_routing_number (set (codes "121042882") 3 b'7')).valid ≡ false
unfolding every
single_digit_slip_example =
    single_digit_slip (codes "121042882") 3 b'7' b'0' refl wells_fargo refl refl (omega arith)

format_account_number_digits_example :
    (out : Text) × (format_account_number (codes "12-34 567890") ≡ some out)
    × (keep is_digit out ≡ keep is_digit (codes "12-34 567890"))
    × (8 < length (keep is_digit (codes "12-34 567890"))
        → (gs : List Text) × (out ≡ join (45 ∷ []) gs) × AreGroups gs)
format_account_number_digits_example = format_account_number_digits (codes "12-34 567890")

validate_aba_routing-agrees_example : validate_aba_routing (codes "121042882") ≡ record {
  valid = true;
  district = some (
      lookup_or
        (take 2 (trim (codes "121042882")))
        fed_district_map
        (codes "Federal Reserve System"));
  routing = some (trim (codes "121042882"));
  error = none;
}
validate_aba_routing-agrees_example = validate_aba_routing-agrees (codes "121042882") wells_fargo
