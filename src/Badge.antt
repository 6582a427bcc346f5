-- ===== src/Badge.antt =====
-- frontend/lib/neobank/utils.ts and types.ts: the badge of a settlement rail.
pub mod Laws
use ikarin_bank.Prelude.{Bool, ◌||◌, if◌then◌else◌}
use ikarin_bank.Text.{Text, codes, text_eq, to_lower_case}

-- `FedRail`
pub data FedRail : Type 0 where
  fednow wire ach internal card : FedRail

-- `FedRailBadgeInfo`
pub record FedRailBadgeInfo : Type 0 where
  pub rail : FedRail
  pub label : Text
  pub speed : Text
  pub fee : Text
  pub color : Text
  pub icon : Text
  pub description : Text

-- The badges that `formatFedRailBadge` writes out.
unfoldable pub fednow_badge : FedRailBadgeInfo
fednow_badge = record {
  rail = fednow;
  label = codes "FedNow 24/7";
  speed = codes "Instant (2.5s)";
  fee = codes "$0.00";
  color = codes "emerald";
  icon = codes "Zap";
  description = codes "Federal Reserve instant real-time gross settlement";
}

unfoldable pub wire_badge : FedRailBadgeInfo
wire_badge = record {
  rail = wire;
  label = codes "Fedwire RTGS";
  speed = codes "Real-time (Same day)";
  fee = codes "$15.00";
  color = codes "indigo";
  icon = codes "Landmark";
  description = codes "High-value institutional real-time settlement with IMAD/OMAD";
}

unfoldable pub ach_badge : FedRailBadgeInfo
ach_badge = record {
  rail = ach;
  label = codes "FedACH Direct";
  speed = codes "1-2 Business Days";
  fee = codes "$0.00";
  color = codes "amber";
  icon = codes "Clock";
  description = codes "Batch automated clearing house direct debit/deposit";
}

unfoldable pub internal_badge : FedRailBadgeInfo
internal_badge = record {
  rail = internal;
  label = codes "Internal P2P";
  speed = codes "Instant";
  fee = codes "$0.00";
  color = codes "purple";
  icon = codes "Send";
  description = codes "Direct intra-bank ledger transfer";
}

-- `formatFedRailBadge`
unfoldable pub format_fed_rail_badge : Text → FedRailBadgeInfo
format_fed_rail_badge rail =
    let r = to_lower_case rail in
    if text_eq r (codes "fednow")
    then fednow_badge
    else if text_eq r (codes "wire") || text_eq r (codes "fedwire")
    then wire_badge
    else if text_eq r (codes "ach") || text_eq r (codes "fedach")
    then ach_badge
    else internal_badge

-- The literal that stands for a rail in the source.
abbrev pub rail_name : FedRail → Text
rail_name fednow = codes "fednow"
rail_name wire = codes "wire"
rail_name ach = codes "ach"
rail_name internal = codes "internal"
rail_name card = codes "card"
