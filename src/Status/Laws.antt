-- ===== src/Status/Laws.antt =====
-- The two readings of a status, of frontend/lib/transactionUtils.ts and frontend/lib/neobank/utils.ts,
-- compared.
use ikarin_bank.Prelude.{ℕ, ◌≡◌, refl, ap, [], ◌∷◌, some, arith, inl, inr, Bool-cases}
use ikarin_bank.Text.{Text, codes, text_eq, trim, to_lower_case, to_upper_case, lower, upper}
use ikarin_bank.Text.Laws.{text_eq→eq}
use ikarin_bank.Money.{Status, pending, cleared, failed, unknown, get_transaction_status}
use ikarin_bank.Status.{
  StatusStyle, settled, processing, declined, style_of, format_transaction_status,
}

lower-upper : (c : ℕ) → lower (upper c) ≡ lower c
unfolding lower upper
lower-upper c = ground arith

to_lower_case-to_upper_case : (s : Text) → to_lower_case (to_upper_case s) ≡ to_lower_case s
unfolding to_lower_case to_upper_case
to_lower_case-to_upper_case [] = refl
to_lower_case-to_upper_case (c ∷ s) = cc (lower-upper c, to_lower_case-to_upper_case s)

-- A status in capitals is shown like the status itself.
format_transaction_status-to_upper_case :
    (s : Text)
    → format_transaction_status (some (to_upper_case s)) ≡ format_transaction_status (some s)
unfolding format_transaction_status
format_transaction_status-to_upper_case [] = unfold to_upper_case in refl
format_transaction_status-to_upper_case (c ∷ s) =
    unfold to_upper_case in ap (λ t. style_of (trim t)) (to_lower_case-to_upper_case (c ∷ s))

-- What each answer of `getTransactionStatus` is shown as.
abbrev pub StyleFor : Status → StatusStyle → Type 0
StyleFor pending style = style ≡ processing
StyleFor cleared style = style ≡ settled
StyleFor failed style = style ≡ declined
StyleFor unknown style = Unit {0}

-- A status that `getTransactionStatus` knows is shown as Processing if it is pending, as Settled if it
-- is cleared and as Declined if it failed.
format_transaction_status-agrees :
    (s : Text) → StyleFor (get_transaction_status s) (format_transaction_status (some s))
unfolding get_transaction_status format_transaction_status style_of text_eq to_lower_case trim
format_transaction_status-agrees s = elim (Bool-cases (text_eq s (codes "pending"))) [
  | inl e ↦ rw (text_eq→eq s (codes "pending") e)
  | inr p ↦ elim (Bool-cases (text_eq s (codes "sent_to_kafka"))) [
    | inl e ↦ rw (text_eq→eq s (codes "sent_to_kafka") e)
    | inr k ↦ elim (Bool-cases (text_eq s (codes "cleared"))) [
      | inl e ↦ rw (text_eq→eq s (codes "cleared") e)
      | inr c ↦ elim (Bool-cases (text_eq s (codes "failed"))) [
        | inl e ↦ rw (text_eq→eq s (codes "failed") e)
        | inr f ↦ rw (p, k, c, f) tt
      ]
    ]
  ]
]
