-- ===== src/Badge/Laws.antt =====
-- The badge of a rail is the badge of its own name, and tells which rails cost a fee.
use ikarin_bank.Prelude.{
  Bool, true, false, ◌||◌, ◌≡◌, ◌↔◌, ◌⊎◌, refl, arith, if◌then◌else◌, Bool-cases, inl, inr,
}
use ikarin_bank.Text.{Text, codes, text_eq, to_lower_case}
use ikarin_bank.Text.Laws.{text_eq→eq}
use ikarin_bank.Badge.{
  fednow_badge, wire_badge, ach_badge, internal_badge, format_fed_rail_badge, rail_name,
}

-- The names that have the badge of the wire.
abbrev is_wire : Text → Bool
is_wire r = text_eq (to_lower_case r) (codes "wire") || text_eq (to_lower_case r) (codes "fedwire")

wire_name_iff :
    (r : Text)
    → (is_wire r ≡ true) ↔ ((to_lower_case r ≡ codes "wire") ⊎ (to_lower_case r ≡ codes "fedwire"))
wire_name_iff r =
    let name = to_lower_case r in
    (
      λ h. elim (Bool-cases (text_eq name (codes "wire"))) [
        | inl e ↦ inl (text_eq→eq name (codes "wire") e)
        | inr e ↦ inr (text_eq→eq name (codes "fedwire") (ground arith))
      ],
      λ h. elim h [ inl e ↦ unfold text_eq in rw e | inr e ↦ unfold text_eq in rw e ],
    )

wire_case : (r : Text) → is_wire r ≡ true → format_fed_rail_badge r ≡ wire_badge
unfolding format_fed_rail_badge text_eq
wire_case r h = elim ((wire_name_iff r).0 h) [ inl e ↦ rw e | inr e ↦ rw e ]

other_case :
    (r : Text)
    → is_wire r ≡ false
    → (format_fed_rail_badge r ≡ fednow_badge)
      ⊎ (format_fed_rail_badge r ≡ ach_badge)
      ⊎ (format_fed_rail_badge r ≡ internal_badge)
unfolding format_fed_rail_badge
other_case r h = ground arith

closed_badges :
    (format_fed_rail_badge (rail_name fednow_badge.rail) ≡ fednow_badge)
    × (format_fed_rail_badge (rail_name wire_badge.rail) ≡ wire_badge)
    × (format_fed_rail_badge (rail_name ach_badge.rail) ≡ ach_badge)
    × (format_fed_rail_badge (rail_name internal_badge.rail) ≡ internal_badge)
unfolding fednow_badge wire_badge ach_badge internal_badge format_fed_rail_badge to_lower_case
    text_eq
closed_badges = (refl, refl, refl, refl)

-- The name of the rail on a badge has that same badge.
format_fed_rail_badge_idem :
    (r : Text)
    → format_fed_rail_badge (rail_name (format_fed_rail_badge r).rail) ≡ format_fed_rail_badge r
format_fed_rail_badge_idem r = elim (Bool-cases (is_wire r)) [
  | inl w ↦ rw (wire_case r w) closed_badges.1
  | inr w ↦ elim (other_case r w) [
    | inl e ↦ rw e closed_badges.0
    | inr (inl e) ↦ rw e closed_badges.2
    | inr (inr e) ↦ rw e closed_badges.3
  ]
]

fees :
    (wire_badge.fee ≡ codes "$15.00")
    × (fednow_badge.fee ≡ codes "$0.00")
    × (ach_badge.fee ≡ codes "$0.00")
    × (internal_badge.fee ≡ codes "$0.00")
unfolding fednow_badge wire_badge ach_badge internal_badge
fees = (refl, refl, refl, refl)

fee_of :
    (r : Text)
    → (format_fed_rail_badge r).fee ≡ (if is_wire r then codes "$15.00" else codes "$0.00")
fee_of r = elim (Bool-cases (is_wire r)) [
  | inl w ↦ rw (wire_case r w, w) fees.0
  | inr w ↦ elim (other_case r w) [
    | inl e ↦ rw (e, w) fees.1
    | inr (inl e) ↦ rw (e, w) fees.2
    | inr (inr e) ↦ rw (e, w) fees.3
  ]
]

-- A badge shows the fee of fifteen dollars exactly when the rail is `wire` or `fedwire`, in any case of
-- the letters, and every other badge shows no fee.
fee_iff :
    (r : Text)
    → let fee = (format_fed_rail_badge r).fee in
      ((fee ≡ codes "$15.00")
        ↔ ((to_lower_case r ≡ codes "wire") ⊎ (to_lower_case r ≡ codes "fedwire")))
      × ((fee ≡ codes "$15.00") ⊎ (fee ≡ codes "$0.00"))
fee_iff r =
    let (there, back) = wire_name_iff r in
    elim (Bool-cases (is_wire r)) [
      | inl w ↦ rw (fee_of r, w) ((λ _. there w, λ _. refl), inl refl)
      | inr w ↦
          rw (fee_of r, w) ((λ h. ground arith, λ h. absurd (ground (arith, back h))), inr refl)
    ]
