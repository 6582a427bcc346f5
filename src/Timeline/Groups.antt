-- ===== src/Timeline/Groups.antt =====
-- The groups of transactions under their dates.
use ikarin_bank.Prelude.{
  ℕ, suc, ◌+◌, ◌≡◌, refl, sym, List, [], ◌∷◌, ◌++◌, Option, none, some, arith, filter, length,
  length-append, Bool-cases, inl, inr, append-nil, append_assoc, if◌then◌else◌,
}
use ikarin_bank.Prelude.Int.{ℤ}
use ikarin_bank.Text.{Text, text_eq}
use ikarin_bank.Text.Laws.{text_eq→eq, text_eq_common}
use ikarin_bank.Timeline.{
  Event, Calendar, Groups, push_event, lookup, header_of, group_events, group_transactions_by_date,
}

-- The events under a header.
abbrev pub or_nothing : Option (List Event) → List Event
or_nothing none = []
or_nothing (some es) = es

abbrev pub events_under : Text → Groups → List Event
events_under header groups = or_nothing (lookup header groups)

abbrev pub count_events : Groups → ℕ
count_events [] = 0
count_events ((k, es) ∷ groups) = length es + count_events groups

events_under-push_event :
    (h k : Text) (e : Event) (groups : Groups)
    → events_under h (push_event k e groups)
      ≡ (if text_eq k h then events_under h groups ++ e ∷ [] else events_under h groups)
unfolding lookup push_event
events_under-push_event h k e [] = ground arith
events_under-push_event h k e ((j, es) ∷ groups) =
    let rest = events_under-push_event h k e groups in
    elim (Bool-cases (text_eq j k)) [
      | inl same ↦ rw same (rw (text_eq→eq j k same) (ground arith))
      | inr other ↦ elim (Bool-cases (text_eq j h)) [
        | inl here ↦ elim (Bool-cases (text_eq k h)) [
          | inl there ↦ let same = text_eq_common j k h here there in ground arith
          | inr away ↦ rw other (rw here (rw away refl))
        ]
        | inr away ↦ rw other (rw away rest)
      ]
    ]

count_events-push_event :
    (k : Text) (e : Event) (groups : Groups)
    → count_events (push_event k e groups) ≡ suc (count_events groups)
unfolding push_event
count_events-push_event k e [] = refl
count_events-push_event k e ((j, es) ∷ groups) =
    let rest = count_events-push_event k e groups in
    let len = length-append es (e ∷ []) in grind arith

events_under-group_events :
    (host : Calendar) (now : ℤ) (h : Text) (es : List Event) (groups : Groups)
    → events_under h (group_events host now es groups)
      ≡ events_under h groups ++ filter (λ e. text_eq (header_of host now e) h) es
unfolding group_events filter
events_under-group_events host now h [] groups = sym (append-nil _)
events_under-group_events host now h (e ∷ es) groups =
    let k = header_of host now e in
    let rest = events_under-group_events host now h es (push_event k e groups) in
    let one = events_under-push_event h k e groups in
    elim (Bool-cases (text_eq k h)) [
      | inl same ↦ rw rest (
          rw one (
            rw same (
              append_assoc (events_under h groups) (e ∷ [])
                (filter (λ x. text_eq (header_of host now x) h) es))))
      | inr other ↦ rw rest (rw one (rw other refl))
    ]

count_events-group_events :
    (host : Calendar) (now : ℤ) (es : List Event) (groups : Groups)
    → count_events (group_events host now es groups) ≡ count_events groups + length es
unfolding group_events
count_events-group_events host now [] groups = omega arith
count_events-group_events host now (e ∷ es) groups = omega (
  arith,
  count_events-group_events host now es (push_event (header_of host now e) e groups),
  count_events-push_event (header_of host now e) e groups,
)

-- Under each header groupTransactionsByDate puts the events with that header, in their order, and over
-- all headers as many events as it gets.
pub group_transactions_by_date_lem :
    (host : Calendar) (now : ℤ) (es : List Event) (h : Text)
    → (events_under h (group_transactions_by_date host now es)
        ≡ filter (λ e. text_eq (header_of host now e) h) es)
      × (count_events (group_transactions_by_date host now es) ≡ length es)
unfolding group_transactions_by_date lookup
group_transactions_by_date_lem host now es h = (
  events_under-group_events host now h es [],
  omega (arith, count_events-group_events host now es []),
)
