-- ===== src/Routing/Detection.antt =====
-- The slips of the pen that the check digit finds.
use ikarin_bank.Prelude.{
  ℕ, zero, suc, ◌+◌, ◌-◌, ◌*◌, ◌%◌, ◌<◌, ◌≡◌, ◌≢◌, ◌⊎◌, refl, Bool, true, false, List, [], ◌∷◌,
  some, arith, length, get_elem?, set, Bool-cases, inl, inr,
}
use ikarin_bank.Text.{Text, is_digit, every}
use ikarin_bank.Text.Laws.{trim-digits}
use ikarin_bank.Routing.{validate_routing_number}
use ikarin_bank.Routing.CheckDigit.{checksum, all_weights}
use ikarin_bank.Routing.Validity.{valid_iff}

-- The weights that the algorithm uses.
abbrev AreWeights : List ℕ → Type 0
AreWeights [] = Unit
AreWeights (w ∷ ws) = ((w ≡ 1) ⊎ (w ≡ 3) ⊎ (w ≡ 7)) × AreWeights ws

every-set :
    (p : ℕ → Bool) (s : Text) (i c : ℕ) → every p s ≡ true → p c ≡ true → every p (set s i c) ≡ true
unfolding every
every-set p [] i c h hc = refl
every-set p (d ∷ s) zero c h hc = ground arith
every-set p (d ∷ s) (suc i) c h hc = ground (arith, every-set p s i c)

every-get :
    (p : ℕ → Bool) (s : Text) (i d : ℕ) → every p s ≡ true → get_elem? s i ≡ some d → p d ≡ true
unfolding every
every-get p [] i d h at = ground arith
every-get p (b ∷ s) zero d h at = ground arith
every-get p (b ∷ s) (suc i) d h at = ground (arith, every-get p s i d)

-- A changed digit changes the sum by its weight times the difference.
checksum-set :
    (ws : List ℕ) (s : Text) (i c d : ℕ)
    → AreWeights ws
    → length s ≡ length ws
    → get_elem? s i ≡ some d
    → (w : ℕ) × ((w ≡ 1) ⊎ (w ≡ 3) ⊎ (w ≡ 7))
      × (checksum ws (set s i c) + (d - 48) * w ≡ checksum ws s + (c - 48) * w)
unfolding checksum
checksum-set [] [] i c d hw e at = ground arith
checksum-set [] (b ∷ s) i c d hw e at = absurd (omega arith)
checksum-set (w ∷ ws) [] i c d hw e at = absurd (omega arith)
checksum-set (w ∷ ws) (b ∷ s) zero c d hw e at = (w, hw.0, ground arith)
checksum-set (w ∷ ws) (b ∷ s) (suc i) c d hw e at =
    let (v, hv, sum) = checksum-set ws s i c d hw.1 (omega arith) at in (v, hv, omega (arith, sum))

-- Two digits that weigh the same modulo ten are one.
weight_injective :
    (w a b x y : ℕ)
    → (w ≡ 1) ⊎ (w ≡ 3) ⊎ (w ≡ 7)
    → a < 10
    → b < 10
    → x + a * w ≡ y + b * w
    → x % 10 ≡ 0
    → y % 10 ≡ 0
    → a ≡ b
weight_injective w a b x y (inl e) ha hb sum hx hy =
    let total : x + a * 1 ≡ y + b * 1 = rw (← e) sum in omega arith
weight_injective w a b x y (inr (inl e)) ha hb sum hx hy =
    let total : x + a * 3 ≡ y + b * 3 = rw (← e) sum in omega arith
weight_injective w a b x y (inr (inr e)) ha hb sum hx hy =
    let total : x + a * 7 ≡ y + b * 7 = rw (← e) sum in omega arith

-- Once a valid number has one of its nine digits replaced by another digit, `validateRoutingNumber`
-- refuses it: the check digit finds every slip in a single digit.
pub single_digit_slip :
    (s : Text) (i c d : ℕ)
    → every is_digit s ≡ true
    → (validate_routing_number s).valid ≡ true
    → get_elem? s i ≡ some d
    → is_digit c ≡ true
    → c ≢ d
    → (validate_routing_number (set s i c)).valid ≡ false
single_digit_slip s i c d hs v at hc ne =
    elim (Bool-cases (validate_routing_number (set s i c)).valid) [
      | inr no_longer ↦ no_longer
      | inl still ↦
          let hd : is_digit d ≡ true = every-get is_digit s i d hs at in
          let (l, _, _, x, _) = rw (trim-digits s hs) at ((valid_iff s).0 v) in
          let (_, _, _, y, _) =
            rw (trim-digits (set s i c) (every-set is_digit s i c hs hc)) at
              ((valid_iff (set s i c)).0 still) in
          let (w, hw, sum) = checksum-set all_weights s i c d (omega arith) l at in
          let same =
            weight_injective w (d - 48) (c - 48) (checksum all_weights (set s i c))
              (checksum all_weights s) hw (ground arith) (ground arith) sum y x in
          absurd (ne (ground arith))
    ]

-- The text with the units at `i` and behind it exchanged.
abbrev pub swap_at : Text → ℕ → Text
swap_at [] i = []
swap_at (b ∷ []) i = b ∷ []
swap_at (b ∷ c ∷ s) zero = c ∷ b ∷ s
swap_at (b ∷ c ∷ s) (suc i) = b ∷ swap_at (c ∷ s) i

abbrev AreNeighbours : ℕ → ℕ → Type 0
AreNeighbours w v = ((w ≡ 3) × (v ≡ 7)) ⊎ ((w ≡ 7) × (v ≡ 1)) ⊎ ((w ≡ 1) × (v ≡ 3))

abbrev AreCyclic : List ℕ → Type 0
AreCyclic [] = Unit
AreCyclic (w ∷ []) = Unit
AreCyclic (w ∷ v ∷ ws) = AreNeighbours w v × AreCyclic (v ∷ ws)

-- Exchanging neighbours moves their digits to the weights of one another.
checksum-swap_at :
    (ws : List ℕ) (s : Text) (i b c : ℕ)
    → AreCyclic ws
    → length s ≡ length ws
    → get_elem? s i ≡ some b
    → get_elem? s (suc i) ≡ some c
    → (w : ℕ) × (v : ℕ) × AreNeighbours w v
      × (checksum ws (swap_at s i) + (b - 48) * w + (c - 48) * v
          ≡ checksum ws s + (c - 48) * w + (b - 48) * v)
unfolding checksum
checksum-swap_at ws [] i b c hw e at bt = ground arith
checksum-swap_at [] (x ∷ s) i b c hw e at bt = absurd (omega arith)
checksum-swap_at (w ∷ ws) (x ∷ []) i b c hw e at bt = ground arith
checksum-swap_at (w ∷ []) (x ∷ y ∷ s) i b c hw e at bt = absurd (omega arith)
checksum-swap_at (w ∷ v ∷ ws) (x ∷ y ∷ s) zero b c hw e at bt = (w, v, hw.0, ground arith)
checksum-swap_at (w ∷ v ∷ ws) (x ∷ y ∷ s) (suc i) b c hw e at bt =
    let (w', v', h, sum) = checksum-swap_at (v ∷ ws) (y ∷ s) i b c hw.1 (omega arith) at bt in
    (w', v', h, omega (arith, sum))

neighbours_differ :
    (w v b c x y : ℕ)
    → AreNeighbours w v
    → x + b * w + c * v ≡ y + c * w + b * v
    → x % 10 ≡ 0
    → y % 10 ≡ 0
    → b % 5 ≡ c % 5
neighbours_differ w v b c x y (inl (e, f)) sum hx hy =
    let total : x + b * 3 + c * 7 ≡ y + c * 3 + b * 7 = rw (← e, ← f) sum in omega arith
neighbours_differ w v b c x y (inr (inl (e, f))) sum hx hy =
    let total : x + b * 7 + c * 1 ≡ y + c * 7 + b * 1 = rw (← e, ← f) sum in omega arith
neighbours_differ w v b c x y (inr (inr (e, f))) sum hx hy =
    let total : x + b * 1 + c * 3 ≡ y + c * 1 + b * 3 = rw (← e, ← f) sum in omega arith

every-swap_at : (p : ℕ → Bool) (s : Text) (i : ℕ) → every p s ≡ true → every p (swap_at s i) ≡ true
unfolding every
every-swap_at p [] i h = refl
every-swap_at p (b ∷ []) i h = h
every-swap_at p (b ∷ c ∷ s) zero h = ground arith
every-swap_at p (b ∷ c ∷ s) (suc i) h = ground (arith, every-swap_at p (c ∷ s) i)

-- Once two neighbouring digits of a valid number are exchanged, `validateRoutingNumber` refuses the
-- result, unless the two digits are the same or differ by five.
transposition_slip :
    (s : Text) (i b c : ℕ)
    → every is_digit s ≡ true
    → (validate_routing_number s).valid ≡ true
    → get_elem? s i ≡ some b
    → get_elem? s (suc i) ≡ some c
    → (b - 48) % 5 ≢ (c - 48) % 5
    → (validate_routing_number (swap_at s i)).valid ≡ false
transposition_slip s i b c hs v at bt ne =
    elim (Bool-cases (validate_routing_number (swap_at s i)).valid) [
      | inr no_longer ↦ no_longer
      | inl still ↦
          let (l, _, _, x, _) = rw (trim-digits s hs) at ((valid_iff s).0 v) in
          let (_, _, _, y, _) =
            rw (trim-digits (swap_at s i) (every-swap_at is_digit s i hs)) at
              ((valid_iff (swap_at s i)).0 still) in
          let (w, v', near, sum) = checksum-swap_at all_weights s i b c (omega arith) l at bt in
          absurd (ne (neighbours_differ w v' (b - 48) (c - 48) _ _ near sum y x))
    ]
