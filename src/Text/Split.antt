-- ===== src/Text/Split.antt =====
-- Splitting a text at a separator and joining the parts with it.
use ikarin_bank.Prelude.{
  ℕ, true, ◌≡◌, refl, ap, ◌∙◌, List, [], ◌∷◌, arith, inl, inr, Bool-cases, ◌==◌, ==_iff,
  if◌then◌else◌,
}
use ikarin_bank.Text.{Text, every, join, split_at}
use ikarin_bank.Text.Laws.{differs}

abbrev pub Lack : ℕ → List Text → Type 0
Lack sep [] = Unit
Lack sep (p ∷ ps) = (every (differs sep) p ≡ true) × Lack sep ps

-- A split leaves no separator.
pub split_at-Lack :
    (sep : ℕ) (s : Text)
    → (every (differs sep) (split_at sep s).0 ≡ true) × Lack sep (split_at sep s).1
unfolding split_at every
split_at-Lack sep [] = (refl, tt)
split_at-Lack sep (c ∷ s) = ground (arith, split_at-Lack sep s)

join-cons :
    (sep c : ℕ) (p : Text) (ps : List Text)
    → join (sep ∷ []) ((c ∷ p) ∷ ps) ≡ c ∷ join (sep ∷ []) (p ∷ ps)
unfolding join
join-cons sep c p [] = refl
join-cons sep c p (q ∷ ps) = refl

join-nil :
    (sep : ℕ) (p : Text) (ps : List Text)
    → join (sep ∷ []) ([] ∷ p ∷ ps) ≡ sep ∷ join (sep ∷ []) (p ∷ ps)
unfolding join
join-nil sep p ps = refl

split_at_step :
    (sep c : ℕ) (s : Text)
    → split_at sep (c ∷ s) ≡ (
        if c == sep
        then ([], (split_at sep s).0 ∷ (split_at sep s).1)
        else (c ∷ (split_at sep s).0, (split_at sep s).1))
unfolding split_at
split_at_step sep c s = refl

-- The parts of a split, joined again, are the text.
pub join-split_at :
    (sep : ℕ) (s : Text) → join (sep ∷ []) ((split_at sep s).0 ∷ (split_at sep s).1) ≡ s
join-split_at sep [] = unfold join split_at in refl
join-split_at sep (c ∷ s) = elim (Bool-cases (c == sep)) [
  | inl e ↦
      rw (split_at_step sep c s, e)
        (join-nil sep (split_at sep s).0 (split_at sep s).1
          ∙ cc ((==_iff c sep).0 e, join-split_at sep s))
  | inr e ↦
      rw (split_at_step sep c s, e)
        (join-cons sep c (split_at sep s).0 (split_at sep s).1
          ∙ ap (λ t. c ∷ t) (join-split_at sep s))
]

-- A split at the separators of a join gives the parts.
pub split_at-join :
    (sep : ℕ) (p : Text) (ps : List Text)
    → every (differs sep) p ≡ true
    → Lack sep ps
    → split_at sep (join (sep ∷ []) (p ∷ ps)) ≡ (p, ps)
unfolding split_at join every
split_at-join sep [] [] hp hs = refl
split_at-join sep [] (q ∷ ps) hp hs = ground (arith, split_at-join sep q ps hs.0 hs.1)
split_at-join sep (c ∷ p) [] hp hs = ground (arith, split_at-join sep p [])
split_at-join sep (c ∷ p) (q ∷ ps) hp hs = ground (arith, split_at-join sep p (q ∷ ps))
