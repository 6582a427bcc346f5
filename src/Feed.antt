-- ===== src/Feed.antt =====
-- frontend/hooks/useDashboard.ts: the two hooks that load data, useTransactions and useBalance.
-- They are one machine: a fetch begins, and it ends later, with an answer or an error, while
-- others begin and end. `K` is what a fetch asks for (the hours, the user's id), `D` the data
-- that the hook keeps.
pub mod Rest
pub mod Races
use ikarin_bank.Prelude.{
  ℕ, zero, suc, Bool, true, false, List, [], ◌∷◌, ◌++◌, Option, none, some, if◌then◌else◌,
}
use ikarin_bank.Prelude.Int.{ℤ}
use ikarin_bank.Text.{Text, codes}

-- The state of a hook, with the fetches that have begun and not ended, the last one first.
pub record Feed (K D : Type 0) : Type 0 where
  pub shown : D
  pub loading : Bool
  pub refetching : Bool
  pub error : Option Text
  pub mounted : Bool
  pub pending : List K

abbrev pub message_or : Text → Text → Text
message_or [] d = d
message_or (c ∷ s) d = c ∷ s

-- Without the fetch at a position.
abbrev pub drop_at {ℓ} : {A : Type ℓ} → ℕ → List A → List A
drop_at i [] = []
drop_at zero (k ∷ ks) = ks
drop_at (suc i) (k ∷ ks) = k ∷ drop_at i ks

module _ {K D : Type 0} where
  -- The state of the first rendering.
  unfoldable pub initial : D → Feed K D
  initial d = record {
    shown = d;
    loading = true;
    refetching = false;
    error = none;
    mounted = true;
    pending = [];
  }

  abbrev pub started : Bool → K → Feed K D → Feed K D
  started is_refresh key s =
      if is_refresh
      then record s { refetching = true; error = none; pending = key ∷ s.pending }
      else record s { loading = true; error = none; pending = key ∷ s.pending }

  -- A fetch up to its call of the server.
  unfoldable pub begin_fetch : Bool → K → Feed K D → Feed K D
  begin_fetch is_refresh key s = if s.mounted then started is_refresh key s else s

  -- A fetch behind its call, with its answer.
  unfoldable pub succeed : ℕ → D → Feed K D → Feed K D
  succeed i d s =
      let s' = record s { pending = drop_at i s.pending } in
      if s.mounted then record s' { shown = d; loading = false; refetching = false } else s'

  -- A fetch behind its call, with the message of its error and the text for an empty one.
  unfoldable pub fail : ℕ → Text → Text → Feed K D → Feed K D
  fail i message default s =
      let s' = record s { pending = drop_at i s.pending } in
      if s.mounted
      then record s' {
        error = some (message_or message default);
        loading = false;
        refetching = false;
      }
      else s'

  -- The end of the component.
  unfoldable pub unmount : Feed K D → Feed K D
  unmount s = record s { mounted = false }

-- useTransactions; `T` is a transaction of the server.
abbrev pub TransactionsFeed : Type 0 → Type 0
TransactionsFeed T = Feed ℕ (List T)

module _ {T : Type 0} where
  abbrev pub fetch_transactions : Bool → ℕ → TransactionsFeed T → TransactionsFeed T
  fetch_transactions is_refresh hours s = begin_fetch is_refresh hours s

  abbrev pub transactions_failed : ℕ → Text → TransactionsFeed T → TransactionsFeed T
  transactions_failed i message s = fail i message (codes "Failed to load transactions") s

-- What useBalance keeps.
pub record Summary (A : Type 0) : Type 0 where
  pub balance : Option ℤ
  pub reserved_balance : Option ℤ
  pub accounts : List A

module _ {A : Type 0} where
  -- Without a user no fetch begins.
  abbrev pub fetch_balance : Bool → Option ℕ → Feed ℕ (Summary A) → Feed ℕ (Summary A)
  fetch_balance is_refresh none s = s
  fetch_balance is_refresh (some user_id) s = begin_fetch is_refresh user_id s

  abbrev pub balance_failed : ℕ → Text → Feed ℕ (Summary A) → Feed ℕ (Summary A)
  balance_failed i message s = fail i message (codes "Failed to load account summary") s
