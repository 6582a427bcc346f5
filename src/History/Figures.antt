-- ===== src/History/Figures.antt =====
-- The figures and the days of the history.
use ikarin_bank.Prelude.{
  ℕ, ◌+◌, ◌≤◌, ◌≡◌, refl, Bool, List, [], ◌∷◌, Option, none, some, arith, filter,
}
use ikarin_bank.Prelude.Int.{
  ℤ, pos, negsuc, ltb_ℤ, ◌+ℤ◌, ◌-ℤ◌, pos_part, neg_part, +ℤ_parts, -ℤ_parts, eq_of_parts,
}
use ikarin_bank.Text.{Text, codes}
use ikarin_bank.Text.Decimal.{parse_int}
use ikarin_bank.Money.{magnitude}
use ikarin_bank.History.{
  History, TxType, initial, begin_fetch_transactions, end_fetch_transactions, apply_preset,
  apply_custom_days, with_days, reset, set_filters, sum_sizes, stats, text_or,
}

-- The sum with the signs.
unfoldable pub sum_signed : List ℤ → ℤ
sum_signed [] = pos 0
sum_signed (a ∷ rest) = a +ℤ sum_signed rest

abbrev sent_of : List ℤ → ℕ
sent_of amounts = sum_sizes (filter (λ a. ltb_ℤ a (pos 0)) amounts)

abbrev received_of : List ℤ → ℕ
received_of amounts = sum_sizes (filter (λ a. ltb_ℤ (pos 0) a) amounts)

sent_of-cons : (a : ℤ) (rest : List ℤ) → sent_of (a ∷ rest) ≡ neg_part a + sent_of rest
unfolding filter sum_sizes
sent_of-cons (pos n) rest = ground arith
sent_of-cons (negsuc n) rest = ground arith

received_of-cons : (a : ℤ) (rest : List ℤ) → received_of (a ∷ rest) ≡ pos_part a + received_of rest
unfolding filter sum_sizes
received_of-cons (pos n) rest = ground arith
received_of-cons (negsuc n) rest = ground arith

magnitude-parts : (a : ℤ) → magnitude a ≡ pos_part a + neg_part a
magnitude-parts (pos n) = omega arith
magnitude-parts (negsuc n) = omega arith

balance :
    (amounts : List ℤ)
    → (pos_part (sum_signed amounts) + sent_of amounts
        ≡ neg_part (sum_signed amounts) + received_of amounts)
      × (sent_of amounts + received_of amounts ≡ sum_sizes amounts)
unfolding sum_signed sum_sizes filter
balance [] = (refl, refl)
balance (a ∷ rest) =
    let (net, sizes) = balance rest in
    (
      omega
          (arith, sent_of-cons a rest, received_of-cons a rest, +ℤ_parts a (sum_signed rest), net),
      omega (arith, sent_of-cons a rest, received_of-cons a rest, magnitude-parts a, sizes),
    )

with_days_bound : (o : Option ℤ) (h : History) → 1 ≤ h.day_range → 1 ≤ (with_days o h).day_range
with_days_bound none h g = g
with_days_bound (some (negsuc n)) h g = g
with_days_bound (some (pos n)) h g = ground arith

-- What the page sent and received: what was received less what was sent is the sum of the
-- transactions, and together they are the sum of their absolute amounts.
stats_lem :
    (h : History)
    → (pos (stats h).received -ℤ pos (stats h).sent ≡ sum_signed h.transactions)
      × ((stats h).sent + (stats h).received ≡ sum_sizes h.transactions)
unfolding stats
stats_lem h =
    let (net, sizes) = balance h.transactions in
    (
      eq_of_parts _ _ (
          omega (
            arith,
            net,
            -ℤ_parts (pos (received_of h.transactions)) (pos (sent_of h.transactions)),
          )),
      sizes,
    )

-- What a user and the server do to the page. The buttons of the presets give one day or more.
pub data Move : History → History → Type 0 where
  begins : {h : History} → Move h (begin_fetch_transactions h)
  ends : {h : History} (answer : Option (List ℤ)) → Move h (end_fetch_transactions answer h)
  presets : {h : History} (days : ℕ) → 1 ≤ days → Move h (apply_preset days h)
  applies : {h : History} → Move h (apply_custom_days h)
  filters :
      {h : History} (t : TxType) (low high : Text) (asc : Bool) (days : Text)
      → Move h (set_filters t low high asc days h)
  resets : {h : History} → Move h (reset h)

pub data Reach : History → Type 0 where
  start : Reach initial
  next : {h h' : History} → Reach h → Move h h' → Reach h'

day_range-end :
    (answer : Option (List ℤ)) (h : History)
    → (end_fetch_transactions answer h).day_range ≡ h.day_range
unfolding end_fetch_transactions
day_range-end none h = refl
day_range-end (some answer) h = refl

day_range-Move : {h h' : History} → Move h h' → 1 ≤ h.day_range → 1 ≤ h'.day_range
unfolding begin_fetch_transactions apply_preset apply_custom_days set_filters reset
day_range-Move begins g = g
day_range-Move (ends {h} answer) g = rw (day_range-end answer h) g
day_range-Move (presets days p) g = p
day_range-Move (applies {h}) g = with_days_bound (parse_int (text_or h.custom_days (codes "0"))) h g
day_range-Move (filters t low high asc days) g = g
day_range-Move resets g = omega arith

-- However the filters are used, the page asks for one day or more, whatever text stands in the
-- field of the days.
pub Reach-day_range : (h : History) → Reach h → 1 ≤ h.day_range
unfolding initial
Reach-day_range _ start = omega arith
Reach-day_range _ (next {h} r m) = day_range-Move m (Reach-day_range h r)
