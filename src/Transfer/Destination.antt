-- ===== src/Transfer/Destination.antt =====
-- The effect that keeps the destination away from the source.
use ikarin_bank.Prelude.{
  ◌<◌, ◌≡◌, ◌≢◌, refl, sym, ap, inl, inr, Bool, true, false, ◌&&◌, ◌||◌, List, [], ◌∷◌, Option,
  none, some, ◌==◌, ltb, length, Bool-cases, arith,
}
use ikarin_bank.Transfer.{Account, Form, find, has_other_id, with_destination, update_destination}

found_first :
    (p : Account → Bool) (b : Account) (accounts : List Account)
    → p b ≡ true
    → find p (b ∷ accounts) ≡ some b
unfolding find
found_first p b accounts h = rw h refl

found_later :
    (p : Account → Bool) (b : Account) (accounts : List Account)
    → p b ≡ false
    → find p (b ∷ accounts) ≡ find p accounts
unfolding find
found_later p b accounts h = rw h refl

some_injective : {a b : Account} → some a ≡ some b → a ≡ b
some_injective {a} {b} e = ap (λ o. elim o [ none ↦ a | some c ↦ c ]) e

-- What the effect tests.
abbrev is_wrong : List Account → Form → Bool
is_wrong accounts form =
    ltb 1 (length accounts)
    && (form.to_account_id == 0 || form.to_account_id == form.from_account_id)

find-holds :
    (p : Account → Bool) (accounts : List Account) (a : Account)
    → find p accounts ≡ some a
    → p a ≡ true
unfolding find
find-holds p [] a e = ground arith
find-holds p (b ∷ accounts) a e =
    let rest = find-holds p accounts a in
    elim (Bool-cases (p b)) [
      | inl h ↦
          let same : some b ≡ some a = rw (sym (found_first p b accounts h)) e in
          rw (sym (some_injective same)) h
      | inr h ↦ rest (rw (sym (found_later p b accounts h)) e)
    ]

settle :
    (accounts : List Account) (form : Form) (o : Option Account)
    → find (has_other_id form.from_account_id) accounts ≡ o
    → update_destination accounts (with_destination o form) ≡ with_destination o form
unfolding update_destination
settle accounts form none e = elim (Bool-cases (is_wrong accounts form)) [
  | inl w ↦ rw w (rw e refl)
  | inr w ↦ rw w refl
]
settle accounts form (some a) e =
    elim (Bool-cases (is_wrong accounts (with_destination (some a) form))) [
      | inl w ↦ rw w (rw e refl)
      | inr w ↦ rw w refl
    ]

-- The effect settles: run again on its own result it changes nothing, so it does not render forever.
update_destination_idem :
    (accounts : List Account) (form : Form)
    → update_destination accounts (update_destination accounts form)
      ≡ update_destination accounts form
unfolding update_destination
update_destination_idem accounts form =
    let target = find (has_other_id form.from_account_id) accounts in
    elim (Bool-cases (is_wrong accounts form)) [
      | inr right ↦ rw right (rw right refl)
      | inl wrong ↦ rw wrong (settle accounts form target refl)
    ]

-- With two accounts or more, one of which is not the source, the destination behind the effect is not
-- the source.
update_destination-differs :
    (accounts : List Account) (form : Form) (a : Account)
    → 1 < length accounts
    → find (has_other_id form.from_account_id) accounts ≡ some a
    → (update_destination accounts form).from_account_id
      ≢ (update_destination accounts form).to_account_id
unfolding update_destination
update_destination-differs accounts form a l e =
    let other = find-holds (has_other_id form.from_account_id) accounts a e in
    elim (Bool-cases (is_wrong accounts form)) [
      | inl w ↦ rw w (rw e (λ h. ground arith))
      | inr w ↦ rw w (λ h. ground arith)
    ]
