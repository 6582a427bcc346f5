-- ===== src/Fed/Submit.antt =====
-- What the form of the rails sends.
use ikarin_bank.Prelude.{
  ℕ, ◌≡◌, ◌≢◌, ◌⊎◌, false, List, [], ◌∷◌, ◌++◌, Option, none, some, arith, length,
}
use mathlib.Core.List.{Mem}
use ikarin_bank.Prelude.Int.{ℤ, pos, ◌≤ℤ◌}
use ikarin_bank.Text.{Text, codes, is_digit, keep, trim}
use ikarin_bank.Money.{to_cents}
use ikarin_bank.Transfer.{Account, head, not_positive}
use ikarin_bank.Fed.{FedForm, refused}
use ikarin_bank.Fed.Sending.{FedOutcome, tell, request_of, send_transfer}

-- An amount that is a number is positive. One that is not passes.
pub IsPayable : Option ℤ → Type 0
IsPayable none = Unit
IsPayable (some c) = pos 1 ≤ℤ c

-- The account that pays is the one that the form names, or the first one.
pub PaysFrom : List Account → Option ℕ → Account → Type 0
PaysFrom accounts source a = (source ≡ some a.id) ⊎ (head accounts ≡ some a)

-- What the guards let through.
pub IsSendable : List Account → FedForm → Account → Type 0
IsSendable accounts form a =
    (length (keep is_digit form.routing_number) ≡ 9)
    × (trim form.account_number ≢ [])
    × (trim form.recipient_name ≢ [])
    × (form.amount ≢ [])
    × IsPayable (to_cents (some form.amount))
    × Mem a accounts
    × PaysFrom accounts form.source_account_id a

pub payable : (cents : Option ℤ) → not_positive cents ≡ false → IsPayable cents
unfolding IsPayable
payable none h = tt
payable (some c) h = ground arith

-- What a submission that tells no error does.
pub Sends : (Text → Text) → List Account → FedForm → FedForm → Type 0
Sends sanitize accounts form form' =
    (a : Account) × (form'.sent ≡ form.sent ++ request_of sanitize a form ∷ [])
    × (form'.loading ≡ false)
    × IsSendable accounts form a

abbrev send_or_refuse : (Text → Text) → FedOutcome → FedForm → Option Account → FedForm
send_or_refuse sanitize outcome form selected = elim selected [
  | none ↦ tell (refused (codes "No funding account available.")) form
  | some a ↦ send_transfer sanitize outcome a form
]
