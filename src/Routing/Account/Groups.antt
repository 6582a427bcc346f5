-- ===== src/Routing/Account/Groups.antt =====
-- The grouping of `formatAccountNumber`: the loop ends, and no digit is lost or moved.
use ikarin_bank.Prelude.{
  ℕ, zero, suc, ◌-◌, ◌≤◌, ◌<◌, ◌≡◌, refl, sym, ap, ◌∙◌, List, [], ◌∷◌, ◌++◌, some, ltb, leb, length,
  take, drop, arith, Bool-cases, inl, inr, take-append-drop, length-take, length-drop, append_assoc,
  append-nil,
}
use ikarin_bank.Text.{Text, is_digit, keep, join}
use ikarin_bank.Text.Laws.{keep-append, keep-keep}
use ikarin_bank.Routing.Account.{split_groups, format_account_number}

abbrev pub concat : List Text → Text
concat [] = []
concat (g ∷ gs) = g ++ concat gs

abbrev pub AreFull : List Text → Type 0
AreFull [] = Unit
AreFull (g ∷ gs) = (length g ≡ 4) × AreFull gs

-- A first group of one to four, and groups of four.
abbrev pub AreGroups : List Text → Type 0
AreGroups [] = Unit
AreGroups (g ∷ gs) = (0 < length g) × (length g ≤ 4) × AreFull gs

-- With more fuel than digits the loop ends, and the groups spell the text and what was grouped before.
split_groups_lem :
    (fuel : ℕ) (s : Text) (gs : List Text)
    → length s < fuel
    → 0 < length s
    → AreFull gs
    → (out : List Text) × (split_groups fuel s gs ≡ some out)
      × (concat out ≡ s ++ concat gs)
      × AreGroups out
unfolding split_groups
split_groups_lem zero s gs l p h = elim l [ ]
split_groups_lem (suc fuel) s gs l p h = elim (Bool-cases (ltb 4 (length s))) [
  | inl more ↦
      let n = length s - 4 in
      let (out, e, c, g) =
        split_groups_lem fuel (take n s) (drop n s ∷ gs) (omega (arith, length-take {0} n s))
          (ground (arith, length-take n s)) (ground (arith, length-drop n s), h) in
      (
        out,
        rw more e,
        c
            ∙ sym (append_assoc (take n s) (drop n s) (concat gs))
            ∙ ap (λ t. t ++ concat gs) (take-append-drop n s),
        g,
      )
  | inr last ↦ (s ∷ gs, ground arith, refl, (p, ground arith, h))
]

keep-join : (gs : List Text) → keep is_digit (join (45 ∷ []) gs) ≡ keep is_digit (concat gs)
unfolding join
keep-join [] = refl
keep-join (g ∷ []) = rw append-nil
keep-join (g ∷ h ∷ gs) = simp (keep-append, keep-join (h ∷ gs)) (unfold keep in rw append-nil)

-- `formatAccountNumber` returns for every text. The digits of what it returns are the digits of the
-- text, in order, and beyond eight of them it is groups of four behind one of one to four, with a dash
-- between any two.
pub format_account_number_digits :
    (s : Text)
    → (out : Text) × (format_account_number s ≡ some out)
      × (keep is_digit out ≡ keep is_digit s)
      × (8 < length (keep is_digit s) → (gs : List Text) × (out ≡ join (45 ∷ []) gs) × AreGroups gs)
unfolding format_account_number
format_account_number_digits s =
    let clean = keep is_digit s in
    elim (Bool-cases (leb (length clean) 8)) [
      | inl short ↦ (clean, rw short, keep-keep is_digit s, λ h. absurd (ground arith))
      | inr long ↦
          let (gs, e, c, shape) =
            split_groups_lem (suc (length clean)) clean [] (omega arith) (ground arith) tt in
          (
            join (45 ∷ []) gs,
            rw (long, e),
            rw (keep-join gs, c, append-nil, keep-keep is_digit s),
            λ h. (gs, refl, shape),
          )
    ]
