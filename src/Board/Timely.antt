-- ===== src/Board/Timely.antt =====
-- Which answer the ledger of the bank shows, when answers come in time and when they do not.
use ikarin_bank.Prelude.{
  ℕ, suc, ◌≡◌, refl, Bool, true, false, List, [], ◌∷◌, Option, none, some, ◌==◌, if◌then◌else◌,
  get_elem?,
}
use mathlib.Core.Path.{subst}
use ikarin_bank.Text.{Text, codes, text_eq}
use ikarin_bank.Board.{
  Params, Board, Outcome, ok, not_ok, threw, Timeframe, days_of, initial, params_of, begin_fetch,
  end_fetch, end_fetch_of, mounted, select_timeframe, set_search_query, handle_search_submit,
  inspect, close_inspector, handle_copy, clear_copied,
}

-- What an administrator who is signed in and the server do, when no fetch ends behind the last
-- one that has begun: an older one ends in any way, and the last one, once it is alone, with
-- the server's answer.
pub data Step (T : Type 0) (server : Params → List T) (c : ℕ) (s : Text)
    : Board T → Board T → Type 0 where
  selects :
      {b : Board T} (tf : Timeframe) → Step T server c s b (select_timeframe (some (c ∷ s)) tf b)
  types : {b : Board T} (t : Text) → Step T server c s b (set_search_query t b)
  submits : {b : Board T} → Step T server c s b (handle_search_submit (some (c ∷ s)) b)
  inspects : {b : Board T} (tx : T) → Step T server c s b (inspect tx b)
  closes : {b : Board T} → Step T server c s b (close_inspector b)
  copies : {b : Board T} (key : Text) → Step T server c s b (handle_copy key b)
  clears : {b : Board T} → Step T server c s b (clear_copied b)
  older_ends :
      {b : Board T} (i : ℕ) (outcome : Outcome T)
      → Step T server c s b (end_fetch (suc i) outcome b)
  last_ends :
      {b : Board T} (p : Params)
      → b.pending ≡ p ∷ []
      → Step T server c s b (end_fetch 0 (ok (some (server p))) b)

if-preserves :
    {A : Type 0} (P : A → Type 0) (test : Bool) {x y : A} → P x → P y → P (if test then x else y)
if-preserves P true hx hy = hx
if-preserves P false hx hy = hy

pub data Reach (T : Type 0) (server : Params → List T) (c : ℕ) (s : Text) : Board T → Type 0 where
  start : Reach T server c s (mounted (some (c ∷ s)))
  next : {b b' : Board T} → Reach T server c s b → Step T server c s b b' → Reach T server c s b'

-- The parameters of a call for the range that is selected, in every category.
unfoldable pub IsFor : ℕ → Params → Type 0
IsFor days p = (p.days ≡ days) × (p.category ≡ none)

-- The last fetch that is under way is for the range that is selected; without one, the list is
-- the answer to such a call.
unfoldable pub AreFor : {T : Type 0} → (Params → List T) → ℕ → List T → List Params → Type 0
AreFor server days shown [] = (p : Params) × IsFor days p × (shown ≡ server p)
AreFor server days shown (p ∷ ps) = IsFor days p

unfoldable pub IsCurrent : {T : Type 0} → (Params → List T) → Board T → Type 0
IsCurrent server b =
    (b.selected_category ≡ codes "all")
    × AreFor server b.selected_timeframe b.transactions b.pending

module _ {T : Type 0} (server : Params → List T) where
  category_of : (b : Board T) → IsCurrent server b → b.selected_category ≡ codes "all"
  unfolding IsCurrent
  category_of b h = h.0

  begin_fetch-IsCurrent :
      (c : ℕ) (s : Text) (b : Board T)
      → b.selected_category ≡ codes "all"
      → IsCurrent server (begin_fetch (some (c ∷ s)) b)
  unfolding IsCurrent AreFor IsFor begin_fetch params_of text_eq
  begin_fetch-IsCurrent c s b e = (e, (refl, rw e refl))

  select_timeframe-IsCurrent :
      (c : ℕ) (s : Text) (tf : Timeframe) (b : Board T)
      → IsCurrent server b
      → IsCurrent server (select_timeframe (some (c ∷ s)) tf b)
  unfolding select_timeframe
  select_timeframe-IsCurrent c s tf b h =
      if-preserves (IsCurrent server) (days_of tf == b.selected_timeframe) h
        (begin_fetch-IsCurrent c s (record b { selected_timeframe = days_of tf }) (category_of b h))

  handle_search_submit-IsCurrent :
      (c : ℕ) (s : Text) (b : Board T)
      → IsCurrent server b
      → IsCurrent server (handle_search_submit (some (c ∷ s)) b)
  unfolding handle_search_submit
  handle_search_submit-IsCurrent c s b h =
      if-preserves (IsCurrent server) b.tx_loading h (begin_fetch-IsCurrent c s b (category_of b h))

  end_fetch_of-IsCurrent :
      (i : ℕ) (outcome : Outcome T) (found : Option Params) (b : Board T) (p : Params)
      (ps : List Params)
      → IsCurrent server (record b { pending = p ∷ ps })
      → IsCurrent server (end_fetch_of (suc i) outcome found (record b { pending = p ∷ ps }))
  unfolding IsCurrent AreFor
  end_fetch_of-IsCurrent i outcome none b p ps h = h
  end_fetch_of-IsCurrent i (ok (some ts)) (some q) b p ps h = h
  end_fetch_of-IsCurrent i (ok none) (some q) b p ps h = h
  end_fetch_of-IsCurrent i not_ok (some q) b p ps h = h
  end_fetch_of-IsCurrent i threw (some q) b p ps h = h

  older-IsCurrent :
      (i : ℕ) (outcome : Outcome T) (b : Board T) (ps : List Params)
      → IsCurrent server (record b { pending = ps })
      → IsCurrent server (end_fetch (suc i) outcome (record b { pending = ps }))
  unfolding end_fetch
  older-IsCurrent i outcome b [] h = h
  older-IsCurrent i outcome b (p ∷ ps) h =
      end_fetch_of-IsCurrent i outcome (get_elem? ps i) b p ps h

  last-IsCurrent :
      (b : Board T) (p : Params)
      → b.pending ≡ p ∷ []
      → IsCurrent server b
      → IsCurrent server (end_fetch 0 (ok (some (server p))) b)
  unfolding end_fetch IsCurrent AreFor
  last-IsCurrent b p e h =
      rw e (h.0, (p, subst (AreFor server b.selected_timeframe b.transactions) e h.1, refl))

  Step-IsCurrent :
      (c : ℕ) (s : Text) {b b' : Board T}
      → Step T server c s b b'
      → IsCurrent server b
      → IsCurrent server b'
  unfolding IsCurrent set_search_query inspect close_inspector handle_copy clear_copied
  Step-IsCurrent c s (selects {b} tf) h = select_timeframe-IsCurrent c s tf b h
  Step-IsCurrent c s (types t) h = h
  Step-IsCurrent c s (submits {b}) h = handle_search_submit-IsCurrent c s b h
  Step-IsCurrent c s (inspects tx) h = h
  Step-IsCurrent c s closes h = h
  Step-IsCurrent c s (copies key) h = h
  Step-IsCurrent c s clears h = h
  Step-IsCurrent c s (older_ends {b} i outcome) h = older-IsCurrent i outcome b b.pending h
  Step-IsCurrent c s (last_ends {b} p e) h = last-IsCurrent b p e h

-- Whoever is signed in uses the ledger, and no fetch ends behind the last one that has begun,
-- which is answered. Then the last fetch that is under way is for the range that is selected and
-- for every category, and when none is under way the list is the server's answer to such a call.
pub Reach-IsCurrent :
    {T : Type 0} (server : Params → List T) (c : ℕ) (s : Text) (b : Board T)
    → Reach T server c s b
    → IsCurrent server b
unfolding mounted initial
Reach-IsCurrent server c s _ start = begin_fetch-IsCurrent server c s initial refl
Reach-IsCurrent server c s _ (next r m) =
    Step-IsCurrent server c s m (Reach-IsCurrent server c s _ r)

-- A range is selected while the fetch for another one is under way. The new answer is shown,
-- and the loading ends, when it comes; when the answer to the older fetch comes behind it, that
-- one is shown under the range that is selected now.
pub select_timeframe_overtaken :
    {T : Type 0} (c : ℕ) (s : Text) (tf : Timeframe) (b : Board T) (p : Params) (ps : List Params)
    (old new : List T)
    → (days_of tf == b.selected_timeframe) ≡ false
    → b.pending ≡ p ∷ ps
    → let b1 = end_fetch 0 (ok (some new)) (select_timeframe (some (c ∷ s)) tf b) in
      let b2 = end_fetch 0 (ok (some old)) b1 in
      (b1.transactions ≡ new)
      × (b1.tx_loading ≡ false)
      × (b1.pending ≡ p ∷ ps)
      × (b2.transactions ≡ old)
      × (b2.selected_timeframe ≡ days_of tf)
      × (b2.pending ≡ ps)
unfolding select_timeframe begin_fetch end_fetch
select_timeframe_overtaken c s tf b p ps old new h e =
    simp (h, e) (refl, refl, refl, refl, refl, refl)
