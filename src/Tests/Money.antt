-- ===== src/Tests/Money.antt =====
-- Amounts of money on concrete texts.
use ikarin_bank.Prelude.{◌≡◌, refl, true, some}
use ikarin_bank.Prelude.Int.{pos, negsuc, ◌+ℤ◌, ◌*ℤ◌}
use ikarin_bank.Text.{codes, keep, trim, text_eq, split_at, starts_with, pad_end, pad_start}
use ikarin_bank.Text.Decimal.{parse_int, print, group}
use ikarin_bank.Money.{
  to_cents, from_cents, parse_amount, dollars_text, format_currency, get_status_label,
}
use ikarin_bank.Money.RoundTrip.{to_cents-from_cents}

grouped : from_cents (some (pos 123456789)) ≡ codes "1,234,567.89"
unfolding from_cents dollars_text group print pad_start
grouped = refl

negative : format_currency (some (negsuc 4)) true ≡ codes "-$0.05"
unfolding format_currency from_cents dollars_text group print pad_start starts_with
negative = refl

read_grouped : to_cents (some (codes " 1,234.5 ")) ≡ some (pos 123450)
unfolding to_cents parse_amount keep trim text_eq split_at starts_with pad_end parse_int ◌+ℤ◌ ◌*ℤ◌
read_grouped = refl

-- The label of the source does not know the queue's own state.
kafka_label : get_status_label (codes "sent_to_kafka") ≡ codes "Unknown Status"
unfolding get_status_label text_eq
kafka_label = refl

to_cents-from_cents_example :
    to_cents (some (from_cents (some (negsuc 104249)))) ≡ some (negsuc 104249)
to_cents-from_cents_example = to_cents-from_cents (negsuc 104249)
