-- ===== src/Text.antt =====
-- The JavaScript strings of frontend/lib, as lists of UTF-16 code units, with the operations of the
-- language that the sources call. Letters outside ASCII keep their case.
pub mod Laws
pub mod Decimal
pub mod Split
pub mod Float
use Prim.Native.Char.{code}
use Prim.Native.String.{String}
use ikarin_bank.Prelude.{
  ℕ, ◌+◌, ◌-◌, Bool, true, false, ◌&&◌, ◌||◌, List, [], ◌∷◌, ◌++◌, map, leb, ◌==◌, if◌then◌else◌,
  length, replicate,
}

abbrev pub Text : Type 0
Text = List ℕ

-- The code units of a literal.
abbrev pub codes : String → Text
codes String.[] = []
codes (String.◌∷◌ c s) = code c ∷ codes s

-- `\d`
abbrev pub is_digit : ℕ → Bool
is_digit c = leb 48 c && leb c 57

-- `\s`, which is also what `trim` removes.
unfoldable pub is_space : ℕ → Bool
is_space c =
    (leb 9 c && leb c 13)
    || (c == 32)
    || (c == 160)
    || (c == 5760)
    || (leb 8192 c && leb c 8202)
    || (c == 8232)
    || (c == 8233)
    || (c == 8239)
    || (c == 8287)
    || (c == 12288)
    || (c == 65279)

-- `s.replace(/…/g, '')`: what is left once the other units are removed.
unfoldable pub keep : (ℕ → Bool) → Text → Text
keep p [] = []
keep p (c ∷ s) = if p c then c ∷ keep p s else keep p s

-- Whether every unit passes.
unfoldable pub every : (ℕ → Bool) → Text → Bool
every p [] = true
every p (c ∷ s) = p c && every p s

-- `s === t`
unfoldable pub text_eq : Text → Text → Bool
text_eq [] [] = true
text_eq (c ∷ s) (d ∷ t) = c == d && text_eq s t
text_eq _ _ = false

abbrev pub is_empty : Text → Bool
is_empty [] = true
is_empty (_ ∷ _) = false

unfoldable pub trim_start : Text → Text
trim_start [] = []
trim_start (c ∷ s) = if is_space c then trim_start s else c ∷ s

unfoldable pub trim_end : Text → Text
trim_end [] = []
trim_end (c ∷ s) = let rest = trim_end s in if is_space c && is_empty rest then [] else c ∷ rest

-- `s.trim()`
unfoldable pub trim : Text → Text
unfolding trim_start trim_end is_space
trim s = trim_end (trim_start s)

-- `s.startsWith(t)`
unfoldable pub starts_with : Text → Text → Bool
starts_with s [] = true
starts_with [] (d ∷ t) = false
starts_with (c ∷ s) (d ∷ t) = c == d && starts_with s t

-- `s.includes(t)`
unfoldable pub includes : Text → Text → Bool
unfolding starts_with
includes [] t = is_empty t
includes (c ∷ s) t = starts_with (c ∷ s) t || includes s t

-- `s.split(sep)` at one unit: the text before the first separator, and the parts behind it.
unfoldable pub split_at : ℕ → Text → Text × List Text
split_at sep [] = ([], [])
split_at sep (c ∷ s) =
    let (part, parts) = split_at sep s in if c == sep then ([], part ∷ parts) else (c ∷ part, parts)

-- `parts.join(sep)`
unfoldable pub join : Text → List Text → Text
join sep [] = []
join sep (p ∷ []) = p
join sep (p ∷ q ∷ ps) = p ++ sep ++ join sep (q ∷ ps)

unfoldable pub lower : ℕ → ℕ
lower c = if leb 65 c && leb c 90 then c + 32 else c

unfoldable pub upper : ℕ → ℕ
upper c = if leb 97 c && leb c 122 then c - 32 else c

-- `s.toLowerCase()` and `s.toUpperCase()`
unfoldable pub to_lower_case : Text → Text
unfolding lower
to_lower_case = map lower

unfoldable pub to_upper_case : Text → Text
unfolding upper
to_upper_case = map upper

-- `s.padEnd(n, c)` and `s.padStart(n, c)`
unfoldable pub pad_end : ℕ → ℕ → Text → Text
pad_end n c s = s ++ replicate (n - length s) c

unfoldable pub pad_start : ℕ → ℕ → Text → Text
pad_start n c s = replicate (n - length s) c ++ s
