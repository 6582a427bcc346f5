-- ===== src/Status.antt =====
-- frontend/lib/neobank/utils.ts: the label and the style of a transaction's status.
pub mod Laws
use ikarin_bank.Prelude.{Bool, ◌||◌, List, [], ◌∷◌, Option, none, some, if◌then◌else◌}
use ikarin_bank.Text.{Text, codes, text_eq, trim, to_lower_case}

-- The object that `formatTransactionStatus` returns.
pub record StatusStyle : Type 0 where
  pub label : Text
  pub badge_class : Text
  pub text_class : Text

unfoldable pub settled : StatusStyle
settled = record {
  label = codes "Settled";
  badge_class = codes "bg-emerald-500/10 text-emerald-400 border-emerald-500/20";
  text_class = codes "text-emerald-400";
}

unfoldable pub processing : StatusStyle
processing = record {
  label = codes "Processing";
  badge_class = codes "bg-amber-500/10 text-amber-400 border-amber-500/20";
  text_class = codes "text-amber-400";
}

unfoldable pub declined : StatusStyle
declined = record {
  label = codes "Declined";
  badge_class = codes "bg-rose-500/10 text-rose-400 border-rose-500/20";
  text_class = codes "text-rose-400";
}

unfoldable pub refunded : StatusStyle
refunded = record {
  label = codes "Refunded";
  badge_class = codes "bg-blue-500/10 text-blue-400 border-blue-500/20";
  text_class = codes "text-blue-400";
}

-- The tests on the trimmed text in lower case.
unfoldable pub style_of : Text → StatusStyle
style_of s =
    if text_eq s (codes "sent_to_kafka")
      || text_eq s (codes "pending")
      || text_eq s (codes "processing")
      || text_eq s (codes "in_progress")
    then processing
    else if text_eq s (codes "cleared")
        || text_eq s (codes "settled")
        || text_eq s (codes "completed")
        || text_eq s (codes "success")
    then settled
    else if text_eq s (codes "failed")
        || text_eq s (codes "rejected")
        || text_eq s (codes "declined")
    then declined
    else if text_eq s (codes "reversed") || text_eq s (codes "refunded")
    then refunded
    else settled

-- `formatTransactionStatus`; `none` is an undefined status, and an empty text is treated like it.
unfoldable pub format_transaction_status : Option Text → StatusStyle
format_transaction_status none = settled
format_transaction_status (some []) = settled
format_transaction_status (some (c ∷ s)) = style_of (trim (to_lower_case (c ∷ s)))
