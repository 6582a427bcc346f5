-- ===== src/Profile/Password.antt =====
-- Which passwords the page sends.
use ikarin_bank.Prelude.{
  ◌≡◌, ◌≤◌, Bool, true, false, List, [], ◌∷◌, ◌++◌, Bool-cases, inl, inr, ltb, arith, length,
}
use ikarin_bank.Text.{Text, text_eq}
use ikarin_bank.Users.{Outcome, ok, not_ok, threw}
use ikarin_bank.Profile.{
  Profile, PasswordChange, initial, handle_backup_update, handle_password_submit,
  handle_password_update, change_of, set_passwords, set_backup_email, close_confirm,
}

-- What a user does on the page. While the question is shown, it covers the fields and the form;
-- its buttons answer it.
pub data Move : Profile → Profile → Type 0 where
  types :
      {p : Profile} (current new confirm : Text)
      → p.show_pass_confirm ≡ false
      → Move p (set_passwords current new confirm p)
  types_email : {p : Profile} (s : Text) → Move p (set_backup_email s p)
  updates_backup : {p : Profile} (outcome : Outcome Unit) → Move p (handle_backup_update outcome p)
  submits : {p : Profile} → p.show_pass_confirm ≡ false → Move p (handle_password_submit p)
  closes : {p : Profile} → Move p (close_confirm p)
  confirms :
      {p : Profile} (outcome : Outcome Unit)
      → p.show_pass_confirm ≡ true
      → Move p (handle_password_update outcome p)

pub data Reach : Profile → Type 0 where
  start : Reach initial
  next : {p p' : Profile} → Reach p → Move p p' → Reach p'

unfoldable pub EveryLong : List PasswordChange → Type 0
EveryLong [] = Unit
EveryLong (c ∷ cs) = (8 ≤ length c.new_password) × EveryLong cs

-- What the question is about.
unfoldable pub IsAsked : Bool → Text → Text → Type 0
IsAsked false new confirm = Unit
IsAsked true new confirm = (text_eq new confirm ≡ true) × (8 ≤ length new)

pub IsSafe : Profile → Type 0
IsSafe p = IsAsked p.show_pass_confirm p.new_password p.confirm_password × EveryLong p.changes

EveryLong-append :
    (cs : List PasswordChange) (c : PasswordChange)
    → EveryLong cs
    → 8 ≤ length c.new_password
    → EveryLong (cs ++ c ∷ [])
unfolding EveryLong
EveryLong-append [] c h g = (g, tt)
EveryLong-append (d ∷ cs) c (f, h) g = (f, EveryLong-append cs c h g)

IsSafe-submit :
    (p : Profile)
    → p.show_pass_confirm ≡ false
    → EveryLong p.changes
    → IsSafe (handle_password_submit p)
unfolding IsSafe IsAsked handle_password_submit
IsSafe-submit p h l = elim (Bool-cases (text_eq p.new_password p.confirm_password)) [
  | inr e ↦ rw e (rw h (tt, l))
  | inl e ↦ elim (Bool-cases (ltb (length p.new_password) 8)) [
    | inl f ↦ rw e (rw f (rw h (tt, l)))
    | inr f ↦ rw e (rw f ((e, ground arith), l))
  ]
]

IsSafe-update :
    (outcome : Outcome Unit) (p : Profile)
    → 8 ≤ length p.new_password
    → EveryLong p.changes
    → IsSafe (handle_password_update outcome p)
unfolding IsSafe IsAsked handle_password_update
IsSafe-update (ok _) p h l = (tt, EveryLong-append p.changes (change_of p) l h)
IsSafe-update (not_ok d) p h l = (tt, EveryLong-append p.changes (change_of p) l h)
IsSafe-update (threw m) p h l = (tt, EveryLong-append p.changes (change_of p) l h)

IsSafe-backup :
    (outcome : Outcome Unit) (p : Profile) → IsSafe p → IsSafe (handle_backup_update outcome p)
unfolding IsSafe handle_backup_update
IsSafe-backup (ok _) p h = h
IsSafe-backup (not_ok d) p h = h
IsSafe-backup (threw m) p h = h

asked : (b : Bool) (new confirm : Text) → b ≡ true → IsAsked b new confirm → 8 ≤ length new
unfolding IsAsked
asked true new confirm e h = h.1
asked false new confirm e h = ground arith

IsSafe-Move : {p p' : Profile} → Move p p' → IsSafe p → IsSafe p'
unfolding IsSafe IsAsked set_passwords set_backup_email close_confirm
IsSafe-Move (types current new confirm e) h = rw e (tt, h.1)
IsSafe-Move (types_email s) h = h
IsSafe-Move (updates_backup {p} outcome) h = IsSafe-backup outcome p h
IsSafe-Move (submits {p} e) h = IsSafe-submit p e h.1
IsSafe-Move closes h = (tt, h.1)
IsSafe-Move (confirms {p} outcome e) h =
    IsSafe-update outcome p (asked p.show_pass_confirm p.new_password p.confirm_password e h.0) h.1

-- However a user moves on the page, the fields being covered while the question is shown: while
-- it is, the new password and its confirmation are the same text of eight units or more, and
-- every new password that was sent has eight units or more.
pub Reach-IsSafe : (p : Profile) → Reach p → IsSafe p
unfolding IsSafe IsAsked EveryLong initial
Reach-IsSafe _ start = (tt, tt)
Reach-IsSafe _ (next {p} r m) = IsSafe-Move m (Reach-IsSafe p r)
