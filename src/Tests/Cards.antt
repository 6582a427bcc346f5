-- ===== src/Tests/Cards.antt =====
-- Virtual cards on concrete draws.
use ikarin_bank.Prelude.{ℕ, ◌≡◌, ◌%◌, ◌<◌, true, arith, length, take}
use ikarin_bank.Text.{codes, is_digit, every}
use ikarin_bank.Card.{generate_virtual_card_number}
use ikarin_bank.Card.Luhn.{IsLuhn, generate_virtual_card_number-IsLuhn}

abbrev draw : ℕ → ℕ
draw i = i % 10

draw_lt : (j : ℕ) → draw j < 10
draw_lt j = omega arith

generate_virtual_card_number-IsLuhn_example :
    let s = generate_virtual_card_number draw in
    (length s ≡ 16) × (every is_digit s ≡ true) × (take 4 s ≡ codes "4790") × IsLuhn s
generate_virtual_card_number-IsLuhn_example = generate_virtual_card_number-IsLuhn draw draw_lt
