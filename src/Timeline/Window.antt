-- ===== src/Timeline/Window.antt =====
-- What the time ranges keep.
use ikarin_bank.Prelude.{
  ◌*◌, ◌≤◌, ◌≡◌, refl, Bool, true, List, [], ◌∷◌, arith, filter, Bool-cases, inl, inr,
}
use ikarin_bank.Prelude.Int.{ℤ, pos, ◌-ℤ◌, ◌≤ℤ◌, int_laws}
use ikarin_bank.Timeline.{
  Event, Calendar, TimeRange, get_time_range_hours, is_after, filter_transactions_by_time_range,
}

-- A test that implies another makes the other's filter idle.
pub filter-filter {ℓ} :
    {A : Type ℓ} (p q : A → Bool) (xs : List A)
    → ((x : A) → p x ≡ true → q x ≡ true)
    → filter p (filter q xs) ≡ filter p xs
unfolding filter
filter-filter p q [] h = refl
filter-filter p q (x ∷ xs) h =
    let rest = filter-filter p q xs h in
    elim (Bool-cases (p x)) [
      | inl e ↦ rw (h x e) (rw e (rw rest refl))
      | inr e ↦ elim (Bool-cases (q x)) [
        | inl f ↦ rw f (rw e (rw rest refl))
        | inr f ↦ rw f (rw e (rw rest refl))
      ]
    ]

is_after_mono :
    (host : Calendar) (a b : ℤ) (e : Event)
    → a ≤ℤ b
    → is_after host b e ≡ true
    → is_after host a e ≡ true
unfolding is_after
is_after_mono host a b e h k = ground arith

-- Filtering by a longer range first changes nothing: a range keeps every transaction that a shorter one
-- keeps.
filter_transactions_by_time_range-nested :
    (host : Calendar) (ts : List Event) (short long : TimeRange) (now : ℤ)
    → get_time_range_hours short ≤ get_time_range_hours long
    → filter_transactions_by_time_range host
        (filter_transactions_by_time_range host ts long now)
        short
        now
      ≡ filter_transactions_by_time_range host ts short now
unfolding filter_transactions_by_time_range
filter_transactions_by_time_range-nested host ts short long now h =
    filter-filter (is_after host (now -ℤ pos (get_time_range_hours short * 3600 * 1000)))
      (is_after host (now -ℤ pos (get_time_range_hours long * 3600 * 1000))) ts
      (λ e k.
        is_after_mono host (now -ℤ pos (get_time_range_hours long * 3600 * 1000))
          (now -ℤ pos (get_time_range_hours short * 3600 * 1000)) e (omega int_laws) k)
