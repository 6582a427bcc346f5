-- ===== src/Hub/Amounts.antt =====
-- What the two forms that send over the rails of the Federal Reserve make of the same text.
use ikarin_bank.Prelude.{ℕ, ◌/◌, ◌%◌, ◌≡◌, refl, ap, ◌∙◌, false, ◌∷◌, ◌++◌, some, arith}
use ikarin_bank.Prelude.Int.{pos}
use ikarin_bank.Text.{Text}
use ikarin_bank.Text.Decimal.{print, value, value-append, value-print, every-print, is_empty-print}
use ikarin_bank.Text.Float.{Number, finite, parse_float, parse_float-decimal}
use ikarin_bank.Money.{to_cents}
use ikarin_bank.Money.RoundTrip.{pair, pair-digits, to_cents-plain}
use ikarin_bank.Transfer.{Account}
use ikarin_bank.Badge.{FedRail, fednow, wire, ach, internal, card}
use ikarin_bank.Fed
use ikarin_bank.Fed.Sending
use ikarin_bank.Hub.{Hub, HubRequest, rail_request, p2p_request}
use ikarin_bank.Hub.Execute.{request_of, rail_body, p2p_body}

-- The text of an amount of cents, as a user types it.
unfoldable pub cents_text : ℕ → Text
cents_text n = print (n / 100) ++ 46 ∷ pair (n % 100)

value-cents : (n : ℕ) → value 0 (print (n / 100) ++ pair (n % 100)) ≡ n
unfolding value
value-cents n =
    rw (value-append 0 (print (n / 100)) (pair (n % 100)), value-print (n / 100)) (omega arith)

parse_float-cents : (n : ℕ) → parse_float (cents_text n) ≡ finite false n 2 (pos 0)
unfolding cents_text
parse_float-cents n =
    parse_float-decimal (print (n / 100)) (pair (n % 100)) (every-print (n / 100))
      (is_empty-print (n / 100)) (pair-digits (n % 100) (omega arith))
    ∙ ap (λ m. finite false m 2 (pos 0)) (value-cents n)

-- The amount of a request of the hub.
unfoldable pub amount_of : HubRequest → Number
amount_of (rail_request rail id amount routing name account reference) = amount
amount_of (p2p_request id email amount commentary) = amount

amount_of-request_of :
    (rail : FedRail) (hub : Hub) → amount_of (request_of rail hub) ≡ parse_float hub.amount_str
unfolding amount_of request_of rail_body p2p_body
amount_of-request_of fednow hub = refl
amount_of-request_of wire hub = refl
amount_of-request_of ach hub = refl
amount_of-request_of internal hub = refl
amount_of-request_of card hub = refl

-- When both forms hold the text of an amount of cents, dollars with two digits behind the
-- point, then one sends the cents and the other, over any of its rails, a hundredth of them:
-- the same digits with two behind the point.
pub request_of-cents :
    (sanitize : Text → Text) (n : ℕ) (a : Account) (form : Fed.FedForm) (rail : FedRail) (hub : Hub)
    → form.amount ≡ cents_text n
    → hub.amount_str ≡ cents_text n
    → ((Sending.request_of sanitize a form).amount ≡ some (pos n))
      × (amount_of (request_of rail hub) ≡ finite false n 2 (pos 0))
unfolding Sending.request_of cents_text
request_of-cents sanitize n a form rail hub e f = (
  ap (λ s. to_cents (some s)) e ∙ to_cents-plain n,
  amount_of-request_of rail hub ∙ ap parse_float f ∙ parse_float-cents n,
)
