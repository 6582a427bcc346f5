-- ===== src/Fed/Lookup.antt =====
-- What the form of the rails looks up, and what it shows when an answer comes late.
use ikarin_bank.Prelude.{
  ◌≡◌, ◌≢◌, ◌↔◌, ◌⊎◌, refl, sym, ap, ◌∙◌, inl, inr, true, false, List, ◌∷◌, Option, none, some,
  ◌==◌, Bool-cases, arith, length, take,
}
use mathlib.Core.Path.{subst}
use ikarin_bank.Text.{Text, is_digit, keep, every, text_eq}
use ikarin_bank.Text.Laws.{keep-every, every-keep, trim-digits, text_eq→eq}
use ikarin_bank.Routing.{validate_routing_number}
use ikarin_bank.Routing.CheckDigit.{every-take}
use ikarin_bank.Routing.Validity.{IsRoutingNumber, valid_iff}
use ikarin_bank.Fed.{FedForm, set_routing_number, validate_and_look_up, end_lookup, found}

-- The digits that the input keeps.
abbrev digits_of : Text → Text
digits_of s = take 9 (keep is_digit s)

valid_digits_iff :
    (t : Text)
    → every is_digit t ≡ true
    → ((validate_routing_number t).valid ≡ true) ↔ IsRoutingNumber t
valid_digits_iff t h = rw (trim-digits t h) at (valid_iff t)

-- What the effect does for the digits of the field, whatever it was before.
pub AsksOrNot : Text → FedForm → FedForm → Type 0
AsksOrNot t form form' =
    ((form'.lookups ≡ t ∷ form.lookups) × (form'.validation_error ≡ none) × IsRoutingNumber t)
    ⊎ ((form'.lookups ≡ form.lookups) × (form'.directory_info ≡ none) × ¬ IsRoutingNumber t)

asks_or_not :
    (form : FedForm) (t : Text)
    → every is_digit t ≡ true
    → form.routing_number ≡ t
    → let form' = validate_and_look_up form in (form'.routing_number ≡ t) × AsksOrNot t form form'
unfolding validate_and_look_up AsksOrNot
asks_or_not form t digits e =
    let clean : keep is_digit form.routing_number ≡ t =
      ap (keep is_digit) e ∙ keep-every is_digit t digits in
    elim (Bool-cases (length t == 9)) [
      | inr l ↦ rw clean (rw l (e, inr (refl, refl, λ r. ground (arith, r.0))))
      | inl l ↦ elim (Bool-cases (validate_routing_number t).valid) [
        | inl v ↦ rw clean (rw l (rw v (e, inl (refl, refl, (valid_digits_iff t digits).0 v))))
        | inr v ↦ rw clean (
            rw l (rw v (e, inr (refl, refl, λ r. ground (arith, (valid_digits_iff t digits).1 r)))))
      ]
    ]

every-nine : (s : Text) → every is_digit (take 9 (keep is_digit s)) ≡ true
every-nine s = every-take is_digit 9 (keep is_digit s) (every-keep is_digit s)

different_texts : (s t : Text) → s ≢ t → text_eq s t ≡ false
different_texts s t h = elim (Bool-cases (text_eq s t)) [
  | inl e ↦ absurd (h (text_eq→eq s t e))
  | inr e ↦ e
]

-- Typing in the field of the routing number keeps the first nine digits, and let them be other
-- ones than before. Where they are a routing number, the form asks the directory about them and
-- shows no error. Where they are not, it asks nothing and shows no institution.
pub set_routing_number_lem :
    (s : Text) (form : FedForm)
    → take 9 (keep is_digit s) ≢ form.routing_number
    → let form' = set_routing_number s form in
      let t = take 9 (keep is_digit s) in (form'.routing_number ≡ t) × AsksOrNot t form form'
unfolding set_routing_number AsksOrNot
set_routing_number_lem s form h =
    let t = take 9 (keep is_digit s) in
    rw (different_texts t form.routing_number h)
      (asks_or_not (record form { routing_number = t }) t (every-nine s) refl)

-- When a routing number other than that of the form was typed and then, before the directory
-- answered, a text that is none, the lookup of the first is still awaited while the form shows
-- an error or nothing. Its answer then stands beside the second text: the institution is shown
-- and no error is.
pub end_lookup_late :
    (r s : Text) (institution : Text) (district : Option Text) (errors : List Text) (form : FedForm)
    → take 9 (keep is_digit r) ≢ form.routing_number
    → IsRoutingNumber (take 9 (keep is_digit r))
    → ¬ IsRoutingNumber (take 9 (keep is_digit s))
    → let form' = set_routing_number s (set_routing_number r form) in
      let late = end_lookup 0 (found true (some institution) district errors) form' in
      (form'.lookups ≡ take 9 (keep is_digit r) ∷ form.lookups)
      × (form'.directory_info ≡ none)
      × (late.routing_number ≡ take 9 (keep is_digit s))
      × (late.validation_error ≡ none)
      × (late.directory_info ≡ some (record { institution = institution; district = district }))
unfolding end_lookup AsksOrNot
end_lookup_late r s institution district errors form f g h =
    let (typed_r, before) = set_routing_number_lem r form f in
    let other : take 9 (keep is_digit s) ≢ (set_routing_number r form).routing_number =
      λ e. h (subst IsRoutingNumber (sym (e ∙ typed_r)) g) in
    let (typed, asks) = set_routing_number_lem s (set_routing_number r form) other in
    elim before [
      | inr (_, _, v) ↦ absurd (v g)
      | inl (m, _, _) ↦ elim asks [
        | inl (_, _, v) ↦ absurd (h v)
        | inr (l, d, _) ↦ (l ∙ m, d, typed, refl, refl)
      ]
    ]
