-- ===== src/Merchant.antt =====
-- frontend/lib/neobank/utils.ts: the names of merchants as they are shown.
pub mod Titles
use ikarin_bank.Prelude.{ℕ, Bool, ◌||◌, List, [], ◌∷◌, map, Option, none, some, if◌then◌else◌}
use ikarin_bank.Text.{
  Text, codes, includes, join, lower, split_at, to_lower_case, to_upper_case, upper,
}

-- `w.charAt(0).toUpperCase() + w.slice(1).toLowerCase()`
unfoldable pub capitalise : Text → Text
capitalise [] = []
capitalise (c ∷ s) = upper c ∷ to_lower_case s

-- The words of a name that is not recognised.
unfoldable pub title_case : Text → Text
title_case s = let (w, ws) = split_at 32 s in join (32 ∷ []) (capitalise w ∷ map capitalise ws)

-- The brand that a name in capitals speaks of.
unfoldable pub brand_of : Text → Option Text
brand_of name =
    if includes name (codes "NETFLIX")
    then some (codes "Netflix")
    else if includes name (codes "UBER")
    then some (codes "Uber")
    else if includes name (codes "STARBUCKS")
    then some (codes "Starbucks")
    else if includes name (codes "PG&E") || includes name (codes "ELECTRIC")
    then some (codes "PG&E Electric Utility")
    else if includes name (codes "VANGUARD")
    then some (codes "Vanguard Settlement")
    else if includes name (codes "APPLE")
    then some (codes "Apple")
    else if includes name (codes "AMAZON")
    then some (codes "Amazon")
    else if includes name (codes "SPOTIFY")
    then some (codes "Spotify")
    else none

abbrev pub brand_or_title : Option Text → Text → Text
brand_or_title none raw_name = title_case raw_name
brand_or_title (some brand) raw_name = brand

-- `formatMerchantName`
unfoldable pub format_merchant_name : Text → Text
format_merchant_name [] = codes "Transaction"
format_merchant_name (c ∷ s) = brand_or_title (brand_of (to_upper_case (c ∷ s))) (c ∷ s)
