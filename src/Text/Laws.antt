-- ===== src/Text/Laws.antt =====
-- What the operations on texts do to the texts that the other modules build: texts of digits, and
-- texts that hold no unit of some kind.
use ikarin_bank.Prelude.{
  ℕ, sym, ◌≡◌, ◌↔◌, ◌≢◌, refl, ap, ◌∙◌, Bool, true, false, not, [], ◌∷◌, ◌++◌, arith, ◌==◌,
  Bool-cases, inl, inr,
}
use ikarin_bank.Text.{
  Text, is_digit, is_space, keep, every, text_eq, trim, trim_start, trim_end, split_at, is_empty,
}

pub every-append :
    (p : ℕ → Bool) (s t : Text) → every p s ≡ true → every p t ≡ true → every p (s ++ t) ≡ true
unfolding every
every-append p [] t hs ht = ht
every-append p (c ∷ s) t hs ht = ground (arith, every-append p s t)

-- A test that follows from another passes wherever the other does.
pub every_mono :
    (p q : ℕ → Bool) (s : Text)
    → ((c : ℕ) → p c ≡ true → q c ≡ true)
    → every p s ≡ true
    → every q s ≡ true
unfolding every
every_mono p q [] h hs = refl
every_mono p q (c ∷ s) h hs = ground (arith, h c, every_mono p q s h)

pub keep-append : (p : ℕ → Bool) (s t : Text) → keep p (s ++ t) ≡ keep p s ++ keep p t
unfolding keep
keep-append p [] t = refl
keep-append p (c ∷ s) t = ground (arith, keep-append p s t)

pub keep-every : (p : ℕ → Bool) (s : Text) → every p s ≡ true → keep p s ≡ s
unfolding keep every
keep-every p [] h = refl
keep-every p (c ∷ s) h = ground (arith, keep-every p s)

pub every-keep : (p : ℕ → Bool) (s : Text) → every p (keep p s) ≡ true
unfolding keep every
every-keep p [] = refl
every-keep p (c ∷ s) = ground (arith, every-keep p s)

pub keep-keep : (p : ℕ → Bool) (s : Text) → keep p (keep p s) ≡ keep p s
keep-keep p s = keep-every p (keep p s) (every-keep p s)

abbrev pub not_space : ℕ → Bool
not_space c = not (is_space c)

pub trim_start_lem : (s : Text) → every not_space s ≡ true → trim_start s ≡ s
unfolding trim_start every
trim_start_lem [] h = refl
trim_start_lem (c ∷ s) h = ground arith

trim_end_lem : (s : Text) → every not_space s ≡ true → trim_end s ≡ s
unfolding trim_end every
trim_end_lem [] h = refl
trim_end_lem (c ∷ s) h = ground (arith, trim_end_lem s)

-- A text without white space is its own trim.
pub trim_lem : (s : Text) → every not_space s ≡ true → trim s ≡ s
unfolding trim
trim_lem s h = let e : trim_start s ≡ s = trim_start_lem s h in ap trim_end e ∙ trim_end_lem s h

pub digit_not_space : (c : ℕ) → is_digit c ≡ true → not_space c ≡ true
unfolding is_space
digit_not_space c h = ground arith

pub trim-digits : (s : Text) → every is_digit s ≡ true → trim s ≡ s
trim-digits s h = trim_lem s (every_mono is_digit not_space s digit_not_space h)

pub text_eq_refl : (s : Text) → text_eq s s ≡ true
unfolding text_eq
text_eq_refl [] = refl
text_eq_refl (c ∷ s) = ground (arith, text_eq_refl s)

pub text_eq→eq : (s t : Text) → text_eq s t ≡ true → s ≡ t
unfolding text_eq
text_eq→eq [] [] h = refl
text_eq→eq [] (d ∷ t) h = ground arith
text_eq→eq (c ∷ s) [] h = ground arith
text_eq→eq (c ∷ s) (d ∷ t) h = ground (arith, text_eq→eq s t)

pub text_eq_sym : (s t : Text) → text_eq s t ≡ text_eq t s
unfolding text_eq
text_eq_sym [] [] = refl
text_eq_sym [] (d ∷ t) = refl
text_eq_sym (c ∷ s) [] = refl
text_eq_sym (c ∷ s) (d ∷ t) = ground (arith, text_eq_sym s t)

-- Texts that are equal to a third are equal.
pub text_eq_common : (r s t : Text) → text_eq r t ≡ true → text_eq s t ≡ true → text_eq r s ≡ true
text_eq_common r s t h k = rw (text_eq→eq r t h ∙ sym (text_eq→eq s t k)) (text_eq_refl s)

pub not-text_eq : (s t : Text) → (not (text_eq s t) ≡ true) ↔ (s ≢ t)
not-text_eq s t = (
  λ h e. let same : text_eq s t ≡ true = rw e (text_eq_refl t) in ground arith,
  λ h. elim (Bool-cases (text_eq s t)) [ inl e ↦ absurd (h (text_eq→eq s t e)) | inr e ↦ rw e ],
)

abbrev pub differs : ℕ → ℕ → Bool
differs sep c = not (c == sep)

pub split_at_none : (sep : ℕ) (s : Text) → every (differs sep) s ≡ true → split_at sep s ≡ (s, [])
unfolding split_at every
split_at_none sep [] h = refl
split_at_none sep (c ∷ s) h = ground (arith, split_at_none sep s)

-- The first separator ends the first part.
pub split_at_first :
    (sep : ℕ) (s t : Text)
    → every (differs sep) s ≡ true
    → every (differs sep) t ≡ true
    → split_at sep (s ++ sep ∷ t) ≡ (s, t ∷ [])
unfolding split_at every
split_at_first sep [] t hs ht = ground (arith, split_at_none sep t ht)
split_at_first sep (c ∷ s) t hs ht = ground (arith, split_at_first sep s t)

pub not-is_empty : (s : Text) → is_empty s ≡ false → s ≢ []
not-is_empty s h e = ground arith
