-- ===== src/Routing/CheckDigit.antt =====
-- The check digit of a routing number.
use ikarin_bank.Prelude.{
  ℕ, zero, suc, ◌+◌, ◌-◌, ◌*◌, ◌%◌, ◌<◌, ◌≤◌, ◌≡◌, ◌↔◌, ◌≢◌, ◌⊎◌, refl, Bool, true, List, [], ◌∷◌,
  ◌++◌, none, some, arith, length, take, get_elem?,
}
use ikarin_bank.Text.{Text, is_digit, every}
use ikarin_bank.Routing.{
  weights, weighted_sum, compute_routing_check_digit, digit, get_federal_reserve_district,
  number_of_unit,
}

-- The sum of the digits of a text, each by its weight.
unfoldable pub checksum : List ℕ → Text → ℕ
checksum ws [] = 0
checksum [] (c ∷ s) = 0
checksum (w ∷ ws) (c ∷ s) = (c - 48) * w + checksum ws s

weighted_sum-checksum :
    (s : Text) (ws : List ℕ) (sum : ℕ)
    → every is_digit s ≡ true
    → length s ≡ length ws
    → weighted_sum s ws (some sum) ≡ some (sum + checksum ws s)
unfolding weighted_sum checksum every number_of_unit
weighted_sum-checksum [] ws sum h e = ground arith
weighted_sum-checksum (c ∷ s) [] sum h e = absurd (omega arith)
weighted_sum-checksum (c ∷ s) (w ∷ ws) sum h e =
    ground (arith, weighted_sum-checksum s ws (sum + (c - 48) * w))

pub every-take : (p : ℕ → Bool) (n : ℕ) (s : Text) → every p s ≡ true → every p (take n s) ≡ true
unfolding every
every-take p zero s h = refl
every-take p (suc n) [] h = refl
every-take p (suc n) (c ∷ s) h = ground (arith, every-take p n s)

-- The weights of all nine digits.
abbrev pub all_weights : List ℕ
all_weights = 3 ∷ 7 ∷ 1 ∷ 3 ∷ 7 ∷ 1 ∷ 3 ∷ 7 ∷ 1 ∷ []

-- The last digit adds its own weight.
pub checksum-last :
    (ws : List ℕ) (w : ℕ) (s : Text)
    → length s ≡ suc (length ws)
    → every is_digit s ≡ true
    → (c : ℕ) × (get_elem? s (length ws) ≡ some c)
      × (is_digit c ≡ true)
      × (checksum (ws ++ w ∷ []) s ≡ checksum ws (take (length ws) s) + (c - 48) * w)
unfolding checksum every
checksum-last [] w [] e h = absurd (omega arith)
checksum-last [] w (c ∷ []) e h = (c, refl, ground arith, ground arith)
checksum-last [] w (c ∷ d ∷ s) e h = absurd (omega arith)
checksum-last (v ∷ ws) w [] e h = absurd (omega arith)
checksum-last (v ∷ ws) w (c ∷ s) e h =
    let (d, at, is_d, total) = checksum-last ws w s (omega arith) (ground arith) in
    (d, at, is_d, rw total (omega arith))

-- The check digit of eight digits is below ten, and is the one digit that makes the sum of the nine
-- weighted digits a multiple of ten.
pub complement_iff : (s d : ℕ) → d < 10 → ((10 - s % 10) % 10 ≡ d) ↔ ((s + d * 1) % 10 ≡ 0)
complement_iff s d h = (λ e. omega arith, λ e. omega arith)

pub compute_check_digit-digits :
    (s : Text)
    → length s ≡ 8
    → every is_digit s ≡ true
    → compute_routing_check_digit s ≡ digit (some ((10 - checksum weights s % 10) % 10))
unfolding compute_routing_check_digit
compute_check_digit-digits s e h = rw (e, weighted_sum-checksum s weights 0 h e) (ground arith)

-- The prefixes that belong to a district.
abbrev pub IsPrefixOfDistrict : ℕ → Type 0
IsPrefixOfDistrict n =
    (n ≤ 12) ⊎ ((21 ≤ n) × (n ≤ 32)) ⊎ ((61 ≤ n) × (n ≤ 72)) ⊎ (n ≡ 80) ⊎ ((90 ≤ n) × (n ≤ 92))

pub district_iff : (n : ℕ) → (get_federal_reserve_district n ≢ none) ↔ IsPrefixOfDistrict n
unfolding get_federal_reserve_district
district_iff n = (λ h. ground arith, λ h. ground arith)
