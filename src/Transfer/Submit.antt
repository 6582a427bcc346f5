-- ===== src/Transfer/Submit.antt =====
-- What the form sends.
use ikarin_bank.Prelude.{
  ℕ, suc, ◌%◌, ◌≡◌, ◌≢◌, refl, false, ◌||◌, List, [], ◌∷◌, ◌++◌, Option, none, some, ◌==◌, arith,
}
use ikarin_bank.Prelude.Int.{ℤ, pos, ◌≤ℤ◌}
use ikarin_bank.Text.{Text, codes, text_eq}
use ikarin_bank.Money.{to_cents}
use ikarin_bank.Money.RoundTrip.{to_cents-plain, pad-print}
use ikarin_bank.Transfer.{
  Account, Form, Outcome, completed, api_failed, failed, not_positive, short_account, from_account,
  request_of, send_transfer, handle_submit, handle_quick_chip, to_fixed_2,
}

sent-send_transfer :
    (sanitize : Text → Text) (key : Text) (outcome : Outcome) (form : Form)
    → ((send_transfer sanitize key outcome form).sent
        ≡ form.sent ++ request_of sanitize key form ∷ [])
      × ((send_transfer sanitize key outcome form).loading ≡ false)
unfolding send_transfer
sent-send_transfer sanitize key (completed m) form = (refl, refl)
sent-send_transfer sanitize key (api_failed d) form = (refl, refl)
sent-send_transfer sanitize key (failed m) form = (refl, refl)

-- An amount that is not a number passes. One that is a number is positive, and the source
-- covers it where it is known.
pub Covers : Option Account → Option ℤ → Type 0
Covers source none = Unit
Covers none (some c) = pos 1 ≤ℤ c
Covers (some a) (some c) = (pos 1 ≤ℤ c) × (c ≤ℤ a.balance)

-- What the guards let through: two different accounts, and an amount that is not a number, or
-- is positive and covered by the source where the source is known.
pub IsAllowed : List Account → Form → Type 0
IsAllowed accounts form =
    (form.from_account_id ≢ 0)
    × (form.to_account_id ≢ 0)
    × (form.from_account_id ≢ form.to_account_id)
    × Covers (from_account accounts form) (to_cents (some form.amount))

to_cents-to_fixed_2 : (n : ℕ) → to_cents (some (to_fixed_2 (pos n))) ≡ some (pos n)
unfolding to_fixed_2
to_cents-to_fixed_2 n = rw (pad-print (n % 100) (omega arith)) (to_cents-plain n)

passes_guards :
    (sanitize : Text → Text) (key : Text) (outcome : Outcome) (accounts : List Account)
    (form : Form)
    → not_positive (to_cents (some form.amount)) ≡ false
    → short_account (to_cents (some form.amount)) (from_account accounts form) ≡ none
    → form.from_account_id ≢ 0
    → form.to_account_id ≢ 0
    → form.from_account_id ≢ form.to_account_id
    → handle_submit sanitize key outcome accounts form ≡ send_transfer sanitize key outcome form
unfolding handle_submit
passes_guards sanitize key outcome accounts form p b f t d =
    let z : (form.from_account_id == 0 || form.to_account_id == 0) ≡ false = ground arith in
    let s : (form.from_account_id == form.to_account_id) ≡ false = ground arith in
    rw p (rw z (rw s (rw b refl)))

-- With the source found and its balance positive, a submission after the chip for the whole
-- balance sends one transfer, of exactly that balance, to another account that is chosen.
pub handle_submit_max :
    (sanitize : Text → Text) (key : Text) (outcome : Outcome) (accounts : List Account)
    (form : Form) (a : Account) (n : ℕ)
    → from_account accounts form ≡ some a
    → a.balance ≡ pos (suc n)
    → form.from_account_id ≢ 0
    → form.to_account_id ≢ 0
    → form.from_account_id ≢ form.to_account_id
    → let form' = handle_quick_chip accounts (codes "max") form in
      ((handle_submit sanitize key outcome accounts form').sent
        ≡ form.sent ++ request_of sanitize key form' ∷ [])
      × ((request_of sanitize key form').amount ≡ some a.balance)
unfolding handle_quick_chip text_eq
handle_submit_max sanitize key outcome accounts form a n found rich f t d =
    let read : to_cents (some (to_fixed_2 a.balance)) ≡ some (pos (suc n)) =
      rw rich (to_cents-to_fixed_2 (suc n)) in
    rw found (
      rw
        (passes_guards sanitize key outcome accounts (record form { amount = to_fixed_2 a.balance })
          (rw read (ground arith)) (rw read (rw found (rw rich (ground arith)))) f t d)
        (
          (sent-send_transfer sanitize key outcome
              (record form { amount = to_fixed_2 a.balance })).0,
          rw rich (to_cents-to_fixed_2 (suc n)),
        ))
