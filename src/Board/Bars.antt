-- ===== src/Board/Bars.antt =====
-- The bars of the hourly counts.
use ikarin_bank.Prelude.{ℕ, zero, suc, ◌-◌, ◌≤◌, ◌≡◌, refl, List, [], ◌∷◌, arith, length, map, drop}
use ikarin_bank.Board.{Hour, HourRow, or_zero, max_hourly_count, hour_row, hour_rows}

-- Every bar stays within its frame, which is not empty.
unfoldable pub AreWithin : List HourRow → Type 0
AreWithin [] = Unit
AreWithin (r ∷ rows) = (1 ≤ r.whole) × (r.part ≤ r.whole) × AreWithin rows

-- No count of the hours is above a bound.
unfoldable pub AreBelow : ℕ → List Hour → Type 0
AreBelow n [] = Unit
AreBelow n (h ∷ hours) = (or_zero h.count ≤ n) × AreBelow n hours

max_hourly_count_pos : (hours : List Hour) → 1 ≤ max_hourly_count hours
unfolding max_hourly_count
max_hourly_count_pos [] = omega arith
max_hourly_count_pos (h ∷ hours) = ground (arith, max_hourly_count_pos hours)

AreBelow-mono : (m n : ℕ) (hours : List Hour) → m ≤ n → AreBelow m hours → AreBelow n hours
unfolding AreBelow
AreBelow-mono m n [] le h = tt
AreBelow-mono m n (k ∷ hours) le h = (omega (arith, h.0), AreBelow-mono m n hours le h.1)

max_hourly_count-AreBelow : (hours : List Hour) → AreBelow (max_hourly_count hours) hours
unfolding AreBelow max_hourly_count
max_hourly_count-AreBelow [] = tt
max_hourly_count-AreBelow (h ∷ hours) = (
  ground arith,
  AreBelow-mono (max_hourly_count hours) _ hours (ground arith) (max_hourly_count-AreBelow hours),
)

drop-AreBelow : (n k : ℕ) (hours : List Hour) → AreBelow n hours → AreBelow n (drop k hours)
unfolding AreBelow
drop-AreBelow n zero hours h = h
drop-AreBelow n (suc k) [] h = tt
drop-AreBelow n (suc k) (x ∷ hours) h = drop-AreBelow n k hours h.1

map-AreWithin :
    (n : ℕ) (hours : List Hour) → 1 ≤ n → AreBelow n hours → AreWithin (map (hour_row n) hours)
unfolding AreBelow AreWithin hour_row
map-AreWithin n [] le h = tt
map-AreWithin n (x ∷ hours) le h = (le, h.0, map-AreWithin n hours le h.1)

length-drop : {A : Type 0} (k : ℕ) (xs : List A) → length (drop k xs) ≡ length xs - k
length-drop zero xs = omega arith
length-drop (suc k) [] = omega arith
length-drop (suc k) (x ∷ xs) = omega (arith, length-drop k xs)

length-map : {A B : Type 0} (f : A → B) (xs : List A) → length (map f xs) ≡ length xs
length-map f [] = refl
length-map f (x ∷ xs) = omega (arith, length-map f xs)

-- At most eight hours are shown, and whatever was counted, in them and before them, each bar has
-- a width of at most the whole of its frame, which is never an empty one to divide by.
pub hour_rows-AreWithin :
    (hours : List Hour) → AreWithin (hour_rows hours) × (length (hour_rows hours) ≤ 8)
unfolding hour_rows
hour_rows-AreWithin hours =
    let max_count = max_hourly_count hours in
    let k = length hours - 8 in
    (
      map-AreWithin max_count (drop k hours) (max_hourly_count_pos hours)
          (drop-AreBelow max_count k hours (max_hourly_count-AreBelow hours)),
      omega (arith, length-map (hour_row max_count) (drop k hours), length-drop k hours),
    )
