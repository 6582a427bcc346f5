-- ===== src/Merchant/Titles.antt =====
-- Names are shown in a stable form.
use ikarin_bank.Prelude.{
  ℕ, true, ◌≡◌, ◌≢◌, refl, ap, ◌∙◌, List, [], ◌∷◌, ◌++◌, map, Option, none, some, arith,
}
use ikarin_bank.Text.{
  Text, codes, every, includes, join, lower, split_at, to_lower_case, to_upper_case, upper,
}
use ikarin_bank.Text.Laws.{differs}
use ikarin_bank.Text.Split.{Lack, split_at-Lack, join-split_at, split_at-join}
use ikarin_bank.Merchant.{capitalise, title_case, format_merchant_name, brand_of, brand_or_title}

lower-upper : (c : ℕ) → lower (upper c) ≡ lower c
unfolding lower upper
lower-upper c = ground arith

upper-lower : (c : ℕ) → upper (lower c) ≡ upper c
unfolding lower upper
upper-lower c = ground arith

upper-upper : (c : ℕ) → upper (upper c) ≡ upper c
unfolding upper
upper-upper c = ground arith

lower-lower : (c : ℕ) → lower (lower c) ≡ lower c
unfolding lower
lower-lower c = ground arith

upper-to_lower_case : (s : Text) → to_upper_case (to_lower_case s) ≡ to_upper_case s
unfolding to_upper_case to_lower_case
upper-to_lower_case [] = refl
upper-to_lower_case (c ∷ s) = cc (upper-lower c, upper-to_lower_case s)

lower-to_lower_case : (s : Text) → to_lower_case (to_lower_case s) ≡ to_lower_case s
unfolding to_lower_case
lower-to_lower_case [] = refl
lower-to_lower_case (c ∷ s) = cc (lower-lower c, lower-to_lower_case s)

capitalise_idem : (w : Text) → capitalise (capitalise w) ≡ capitalise w
unfolding capitalise
capitalise_idem [] = refl
capitalise_idem (c ∷ s) = cc (upper-upper c, lower-to_lower_case s)

upper-capitalise : (w : Text) → to_upper_case (capitalise w) ≡ to_upper_case w
unfolding capitalise to_upper_case
upper-capitalise [] = refl
upper-capitalise (c ∷ s) = cc (upper-upper c, upper-to_lower_case s)

differs-lower : (c : ℕ) → differs 32 c ≡ true → differs 32 (lower c) ≡ true
unfolding lower
differs-lower c h = ground arith

differs-upper : (c : ℕ) → differs 32 c ≡ true → differs 32 (upper c) ≡ true
unfolding upper
differs-upper c h = ground arith

every-to_lower_case :
    (s : Text) → every (differs 32) s ≡ true → every (differs 32) (to_lower_case s) ≡ true
unfolding every to_lower_case
every-to_lower_case [] h = refl
every-to_lower_case (c ∷ s) h = ground (arith, differs-lower c, every-to_lower_case s)

every-capitalise :
    (w : Text) → every (differs 32) w ≡ true → every (differs 32) (capitalise w) ≡ true
unfolding every capitalise
every-capitalise [] h = refl
every-capitalise (c ∷ s) h = ground (arith, differs-upper c, every-to_lower_case s)

Lack-map : (ws : List Text) → Lack 32 ws → Lack 32 (map capitalise ws)
Lack-map [] h = tt
Lack-map (w ∷ ws) h = (every-capitalise w h.0, Lack-map ws h.1)

map-capitalise_idem : (ws : List Text) → map capitalise (map capitalise ws) ≡ map capitalise ws
map-capitalise_idem [] = refl
map-capitalise_idem (w ∷ ws) = cc (capitalise_idem w, map-capitalise_idem ws)

split_at-title_case :
    (s : Text)
    → split_at 32 (title_case s) ≡ (capitalise (split_at 32 s).0, map capitalise (split_at 32 s).1)
unfolding title_case
split_at-title_case s =
    let (hw, hs) = split_at-Lack 32 s in
    split_at-join 32 (capitalise (split_at 32 s).0) (map capitalise (split_at 32 s).1)
      (every-capitalise (split_at 32 s).0 hw) (Lack-map (split_at 32 s).1 hs)

title_case-parts :
    (s : Text) {w : Text} {ws : List Text}
    → split_at 32 s ≡ (w, ws)
    → title_case s ≡ join (32 ∷ []) (capitalise w ∷ map capitalise ws)
unfolding title_case
title_case-parts s e = rw e

title_case_idem : (s : Text) → title_case (title_case s) ≡ title_case s
title_case_idem s =
    title_case-parts (title_case s) (split_at-title_case s)
    ∙ cc (
      capitalise_idem (split_at 32 s).0,
      map-capitalise_idem (split_at 32 s).1,
      title_case-parts s refl,
    )

map-upper-append : (s t : Text) → to_upper_case (s ++ t) ≡ to_upper_case s ++ to_upper_case t
unfolding to_upper_case
map-upper-append [] t = refl
map-upper-append (c ∷ s) t = ap (λ u. upper c ∷ u) (map-upper-append s t)

upper-join :
    (w : Text) (ws : List Text)
    → to_upper_case (join (32 ∷ []) (capitalise w ∷ map capitalise ws))
      ≡ to_upper_case (join (32 ∷ []) (w ∷ ws))
unfolding join
upper-join w [] = upper-capitalise w
upper-join w (v ∷ ws) = simp map-upper-append (cc (upper-capitalise w, upper-join v ws))

upper-title_case : (s : Text) → to_upper_case (title_case s) ≡ to_upper_case s
upper-title_case s =
    ap to_upper_case (title_case-parts s refl)
    ∙ upper-join (split_at 32 s).0 (split_at 32 s).1
    ∙ ap to_upper_case (join-split_at 32 s)

brands_stable :
    (format_merchant_name (codes "Netflix") ≡ codes "Netflix")
    × (format_merchant_name (codes "Uber") ≡ codes "Uber")
    × (format_merchant_name (codes "Starbucks") ≡ codes "Starbucks")
    × (format_merchant_name (codes "PG&E Electric Utility") ≡ codes "PG&E Electric Utility")
    × (format_merchant_name (codes "Vanguard Settlement") ≡ codes "Vanguard Settlement")
    × (format_merchant_name (codes "Apple") ≡ codes "Apple")
    × (format_merchant_name (codes "Amazon") ≡ codes "Amazon")
    × (format_merchant_name (codes "Spotify") ≡ codes "Spotify")
unfolding format_merchant_name brand_of includes to_upper_case
brands_stable = (refl, refl, refl, refl, refl, refl, refl, refl)

-- A brand is shown as itself.
brand_of_stable :
    (name brand : Text) → brand_of name ≡ some brand → format_merchant_name brand ≡ brand
unfolding brand_of
brand_of_stable name brand h = ground (
  arith, brands_stable.0, brands_stable.1, brands_stable.2, brands_stable.3, brands_stable.4,
  brands_stable.5, brands_stable.6, brands_stable.7,
)

not_empty : (c : ℕ) (s : Text) → to_upper_case [] ≢ to_upper_case (c ∷ s)
unfolding to_upper_case
not_empty c s h = cc

format_brand_or_title :
    (s : Text) → s ≢ [] → format_merchant_name s ≡ brand_or_title (brand_of (to_upper_case s)) s
unfolding format_merchant_name
format_brand_or_title [] h = absurd (h refl)
format_brand_or_title (c ∷ s) h = refl

-- What `formatMerchantName` shows is shown as itself: for every name, formatting the result again
-- changes nothing.
format_merchant_name_idem :
    (s : Text) → format_merchant_name (format_merchant_name s) ≡ format_merchant_name s
format_merchant_name_idem [] =
    unfold format_merchant_name brand_of includes to_upper_case title_case capitalise to_lower_case
      split_at join in
    refl
format_merchant_name_idem (c ∷ s) = go (brand_of (to_upper_case (c ∷ s))) refl
  where
    go :
        (o : Option Text)
        → brand_of (to_upper_case (c ∷ s)) ≡ o
        → format_merchant_name (format_merchant_name (c ∷ s)) ≡ format_merchant_name (c ∷ s)
    go none e =
        let shown : format_merchant_name (c ∷ s) ≡ title_case (c ∷ s) =
          unfold format_merchant_name in ap (λ o. brand_or_title o (c ∷ s)) e in
        let titled : to_upper_case (title_case (c ∷ s)) ≡ to_upper_case (c ∷ s) =
          upper-title_case (c ∷ s) in
        rw shown (
          format_brand_or_title (title_case (c ∷ s)) (λ empty. not_empty c s (rw empty at titled))
          ∙ rw (titled, e) (title_case_idem (c ∷ s)))
    go (some brand) e =
        let shown : format_merchant_name (c ∷ s) ≡ brand =
          unfold format_merchant_name in ap (λ o. brand_or_title o (c ∷ s)) e in
        rw shown (brand_of_stable (to_upper_case (c ∷ s)) brand e)
