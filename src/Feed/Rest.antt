-- ===== src/Feed/Rest.antt =====
-- When a hook is at rest, and what it does once its component is gone.
use ikarin_bank.Prelude.{ℕ, ◌≡◌, Bool, true, false, List, [], ◌∷◌}
use ikarin_bank.Text.{Text}
use ikarin_bank.Feed.{Feed, initial, begin_fetch, succeed, fail, unmount}

-- What happens to a hook, in any order: a fetch begins, one that is pending ends, or the
-- component goes.
pub data Step (K D : Type 0) : Feed K D → Feed K D → Type 0 where
  begins : {s : Feed K D} (is_refresh : Bool) (key : K) → Step K D s (begin_fetch is_refresh key s)
  succeeds : {s : Feed K D} (i : ℕ) (d : D) → Step K D s (succeed i d s)
  fails : {s : Feed K D} (i : ℕ) (message default : Text) → Step K D s (fail i message default s)
  goes : {s : Feed K D} → Step K D s (unmount s)

-- The effect of the first rendering begins a fetch at once.
pub data Reach (K D : Type 0) : Feed K D → Type 0 where
  start : (d : D) (key : K) → Reach K D (begin_fetch false key (initial d))
  next : {s s' : Feed K D} → Reach K D s → Step K D s s' → Reach K D s'

-- While it is shown, a hook with no fetch pending shows neither of its spinners.
unfoldable pub AtRest : {K : Type 0} → Bool → List K → Bool → Bool → Type 0
AtRest false pending loading refetching = Unit
AtRest true [] loading refetching = (loading ≡ false) × (refetching ≡ false)
AtRest true (k ∷ ks) loading refetching = Unit

pub IsAtRest : {K D : Type 0} → Feed K D → Type 0
IsAtRest s = AtRest s.mounted s.pending s.loading s.refetching
