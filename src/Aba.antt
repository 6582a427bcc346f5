-- ===== src/Aba.antt =====
-- frontend/lib/neobank/utils.ts: the validation of routing numbers that the transfer forms use, and
-- the table of the districts.
pub mod Agreement
use ikarin_bank.Prelude.{
  ℕ, ◌+◌, ◌-◌, ◌*◌, ◌%◌, Bool, true, false, not, List, [], ◌∷◌, Option, none, some, ◌==◌,
  if◌then◌else◌, length, take, get_or,
}
use ikarin_bank.Text.{Text, codes, is_digit, keep, text_eq}

-- `FED_DISTRICT_MAP`
unfoldable pub fed_district_map : List (Text × Text)
fed_district_map =
    (codes "01", codes "Boston")
    ∷ (codes "02", codes "New York")
    ∷ (codes "03", codes "Philadelphia")
    ∷ (codes "04", codes "Cleveland")
    ∷ (codes "05", codes "Richmond")
    ∷ (codes "06", codes "Atlanta")
    ∷ (codes "07", codes "Chicago")
    ∷ (codes "08", codes "St. Louis")
    ∷ (codes "09", codes "Minneapolis")
    ∷ (codes "10", codes "Kansas City")
    ∷ (codes "11", codes "Dallas")
    ∷ (codes "12", codes "San Francisco")
    ∷ (codes "21", codes "Boston (Thrift)")
    ∷ (codes "22", codes "New York (Thrift)")
    ∷ (codes "23", codes "Philadelphia (Thrift)")
    ∷ (codes "24", codes "Cleveland (Thrift)")
    ∷ (codes "25", codes "Richmond (Thrift)")
    ∷ (codes "26", codes "Atlanta (Thrift)")
    ∷ (codes "27", codes "Chicago (Thrift)")
    ∷ (codes "28", codes "St. Louis (Thrift)")
    ∷ (codes "29", codes "Minneapolis (Thrift)")
    ∷ (codes "30", codes "Kansas City (Thrift)")
    ∷ (codes "31", codes "Dallas (Thrift)")
    ∷ (codes "32", codes "San Francisco (Thrift)")
    ∷ []

-- `map[key] || fallback`
unfoldable pub lookup_or : Text → List (Text × Text) → Text → Text
lookup_or key [] fallback = fallback
lookup_or key ((k, v) ∷ m) fallback = if text_eq key k then v else lookup_or key m fallback

-- The messages of `validateAbaRouting`.
pub data AbaError : Type 0 where
  not_nine_digits bad_checksum : AbaError

-- `AbaValidationResult`
pub record AbaValidationResult : Type 0 where
  pub valid : Bool
  pub district : Option Text
  pub routing : Option Text
  pub error : Option AbaError

-- `Number` of the digit at a place of a text of nine digits.
abbrev pub digit_at : Text → ℕ → ℕ
digit_at s i = get_or s i 48 - 48

-- The weighted sum of the nine digits.
unfoldable pub aba_checksum : Text → ℕ
aba_checksum s =
    3 * (digit_at s 0 + digit_at s 3 + digit_at s 6)
    + 7 * (digit_at s 1 + digit_at s 4 + digit_at s 7)
    + 1 * (digit_at s 2 + digit_at s 5 + digit_at s 8)

abbrev pub aba_rejected : AbaError → AbaValidationResult
aba_rejected e = record { valid = false; district = none; routing = none; error = some e }

-- `validateAbaRouting`
unfoldable pub validate_aba_routing : Text → AbaValidationResult
validate_aba_routing routing =
    let clean = keep is_digit routing in
    if not (length clean == 9)
    then aba_rejected not_nine_digits
    else if not (aba_checksum clean % 10 == 0)
    then aba_rejected bad_checksum
    else record {
      valid = true;
      district = some (lookup_or (take 2 clean) fed_district_map (codes "Federal Reserve System"));
      routing = some clean;
      error = none;
    }
