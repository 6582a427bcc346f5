-- ===== src/Card/Fields.antt =====
-- The other fields of a virtual card, and the masked card number.
use ikarin_bank.Prelude.{
  ℕ, ◌<◌, ◌≡◌, refl, sym, ap, ◌∙◌, true, [], ◌∷◌, ◌++◌, arith, ltb, length, length-append, take,
  drop, append_assoc, append-nil, Bool-cases, inl, inr,
}
use ikarin_bank.Text.{Text, codes, every, pad_start}
use ikarin_bank.Text.Laws.{keep-every}
use ikarin_bank.Text.Decimal.{print, print_below_ten, print_below_hundred}
use ikarin_bank.Card.{format_card_number_masked, not_space}

take-append : (s t : Text) (n : ℕ) → length s ≡ n → take n (s ++ t) ≡ s
take-append [] t n h = rw (← h)
take-append (c ∷ s) t n h = rw (← h) (ap (λ u. c ∷ u) (take-append s t (length s) refl))

drop-append : (s t : Text) (n : ℕ) → length s ≡ n → drop n (s ++ t) ≡ t
drop-append [] t n h = rw (← h)
drop-append (c ∷ s) t n h = rw (← h) (drop-append s t (length s) refl)

masked :
    (a m b : Text)
    → length a ≡ 4
    → length m ≡ 8
    → length b ≡ 4
    → every not_space (a ++ (m ++ b)) ≡ true
    → format_card_number_masked (a ++ (m ++ b)) ≡ a ++ (codes " •••• •••• " ++ b)
unfolding format_card_number_masked
masked a m b la lm lb h =
    let behind : drop 12 (a ++ (m ++ b)) ≡ b =
      rw (← append_assoc a m b)
        (drop-append (a ++ m) b 12 (omega (arith, length-append {0} a m))) in
    let last : take 4 b ≡ b = ap (take 4) (sym (append-nil b)) ∙ take-append b [] 4 lb in
    rw (
      keep-every not_space (a ++ (m ++ b)) h,
      length-append a (m ++ b),
      length-append m b,
      la,
      lm,
      lb,
      take-append a (m ++ b) 4 la,
      behind,
      last,
    )

-- Two numbers of sixteen units without white space that agree in the first four and in the last four
-- are masked alike: the mask tells nothing of the eight units between.
format_card_number_masked-hides :
    (a m n b : Text)
    → length a ≡ 4
    → length m ≡ 8
    → length n ≡ 8
    → length b ≡ 4
    → every not_space (a ++ (m ++ b)) ≡ true
    → every not_space (a ++ (n ++ b)) ≡ true
    → format_card_number_masked (a ++ (m ++ b)) ≡ format_card_number_masked (a ++ (n ++ b))
format_card_number_masked-hides a m n b la lm ln lb hm hn =
    masked a m b la lm lb hm ∙ sym (masked a n b la ln lb hn)

pad-print-length : (n : ℕ) → n < 100 → length (pad_start 2 48 (print n)) ≡ 2
unfolding pad_start
pad-print-length n h = elim (Bool-cases (ltb n 10)) [
  | inl small ↦ rw (print_below_ten n (ground arith))
  | inr large ↦ rw (print_below_hundred n (ground arith) h)
]
