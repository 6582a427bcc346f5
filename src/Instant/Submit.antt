-- ===== src/Instant/Submit.antt =====
-- What the form that pays a user sends.
use ikarin_bank.Prelude.{
  ◌≡◌, ◌≢◌, ◌⊎◌, refl, inr, false, [], ◌∷◌, ◌++◌, some, guard_cases, ||-false,
}
use ikarin_bank.Text.{Text, trim}
use ikarin_bank.Text.Laws.{not-is_empty}
use ikarin_bank.Money.{to_cents}
use ikarin_bank.Fed.Submit.{IsPayable, payable}
use ikarin_bank.Schedule.{Outcome, created, api_failed, failed}
use ikarin_bank.Instant.{P2pForm, P2pNotice, tell, request_of, send_p2p, handle_submit}

-- What a submission that tells no error at once does.
pub Pays : (Text → Text) → P2pForm → P2pForm → Type 0
Pays sanitize form form' =
    (form'.sent ≡ form.sent ++ request_of sanitize form ∷ [])
    × (form'.loading ≡ false)
    × (trim form.recipient ≢ [])
    × IsPayable (to_cents (some form.amount))

Pays-send :
    (sanitize : Text → Text) (outcome : Outcome) (form : P2pForm)
    → trim form.recipient ≢ []
    → IsPayable (to_cents (some form.amount))
    → Pays sanitize form (send_p2p sanitize outcome form)
unfolding Pays send_p2p
Pays-send sanitize (created id) form r h = (refl, refl, r, h)
Pays-send sanitize (api_failed m) form r h = (refl, refl, r, h)
Pays-send sanitize failed form r h = (refl, refl, r, h)

-- A submission tells one error and does nothing else, or it sends one payment, to a recipient
-- that is not blank and of a positive amount if the amount is a number, and is no longer
-- loading.
pub handle_submit-Pays :
    (sanitize : Text → Text) (outcome : Outcome) (form : P2pForm)
    → let form' = handle_submit sanitize outcome form in
      ((n : P2pNotice) × (form' ≡ tell n form)) ⊎ Pays sanitize form form'
unfolding handle_submit
handle_submit-Pays sanitize outcome form = guard_cases (Pays sanitize form) tell form _ _ _ (λ g.
    let (recipient, amount) = ||-false _ _ g in
    inr (
      Pays-send sanitize outcome form (not-is_empty _ recipient)
        (payable _ (||-false _ _ amount).1)))
