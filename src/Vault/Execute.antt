-- ===== src/Vault/Execute.antt =====
-- What the vault dialog sends.
use ikarin_bank.Prelude.{ℕ, ◌≡◌, ◌⊎◌, List, [], ◌∷◌, ◌++◌, Option, none, some}
use ikarin_bank.Prelude.Int.{ℤ, pos, ◌≤ℤ◌}
use ikarin_bank.Text.{Text}
use ikarin_bank.Transfer.{Account, TransferRequest}
use ikarin_bank.Vault.{Dialog, main_account, request_of}

-- An amount that is a number is positive and at most the balance.
pub IsCovered : ℤ → Option ℤ → Type 0
IsCovered balance none = Unit
IsCovered balance (some c) = (pos 1 ≤ℤ c) × (c ≤ℤ balance)

-- One transfer at most, from or to the main account.
SendsOne : List Account → Text → Dialog → List TransferRequest → Type 0
SendsOne accounts key d sent =
    (sent ≡ d.sent)
    ⊎ ((m : Account) × (i : ℕ) × (main_account accounts ≡ some m)
        × (sent ≡ d.sent ++ request_of key d m i ∷ []))
