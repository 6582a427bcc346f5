-- ===== src/Query/Offered.antt =====
-- Which queries are sent.
use ikarin_bank.Prelude.{
  ◌≡◌, ◌≢◌, ◌⊎◌, refl, false, List, [], ◌∷◌, ◌++◌, Option, none, some, Bool-cases, inl, inr,
}
use ikarin_bank.Text.{Text, is_empty, trim}
use ikarin_bank.Text.Laws.{not-is_empty}
use ikarin_bank.Query.Catalog.{Query}
use ikarin_bank.Query.{
  Source, clickhouse, postgres, kafka, predefined_queries, first_query, Call, Builder, initial,
  query_text, Outcome, answered, refused, threw, handle_query, call_of, handle_execute_query,
  handle_query_select, select_source, set_query_param, set_custom_query, toggle_custom_mode,
}

-- A text that a list offers as a query.
unfoldable pub Offers : List Query → Text → Type 0
Offers [] t = ⊥
Offers (q ∷ qs) t = (q.query ≡ t) ⊎ Offers qs t

-- The query that is selected is one of its source.
unfoldable pub IsOffered : Source → Option Query → Type 0
IsOffered source none = ⊥
IsOffered source (some q) = Offers (predefined_queries source) q.query

-- A call has a query that is not blank, and parameters only with a query that its source offers.
pub IsSound : Call → Type 0
IsSound c = (trim c.query ≢ []) × ((c.params ≡ []) ⊎ Offers (predefined_queries c.source) c.query)

unfoldable pub EverySound : List Call → Type 0
EverySound [] = Unit
EverySound (c ∷ cs) = IsSound c × EverySound cs

pub IsServed : Builder → Type 0
IsServed b = IsOffered b.selected_source b.selected_query × EverySound b.calls

-- What an administrator does, in any order. The list that is shown is that of the source.
pub data Move : Builder → Builder → Type 0 where
  executes : {b : Builder} (outcome : Outcome) → Move b (handle_execute_query outcome b)
  selects :
      {b : Builder} (q : Query)
      → Offers (predefined_queries b.selected_source) q.query
      → Move b (handle_query_select q b)
  switches : {b : Builder} (source : Source) → Move b (select_source source b)
  fills : {b : Builder} (key value : Text) → Move b (set_query_param key value b)
  types : {b : Builder} (s : Text) → Move b (set_custom_query s b)
  toggles : {b : Builder} → Move b (toggle_custom_mode b)

pub data Reach : Builder → Type 0 where
  start : Reach initial
  next : {b b' : Builder} → Reach b → Move b b' → Reach b'

EverySound-append :
    (cs : List Call) (c : Call) → EverySound cs → IsSound c → EverySound (cs ++ c ∷ [])
unfolding EverySound
EverySound-append [] c h g = (g, tt)
EverySound-append (d ∷ cs) c (f, h) g = (f, EverySound-append cs c h g)

first_query-IsOffered : (source : Source) → IsOffered source (first_query source)
unfolding IsOffered Offers
first_query-IsOffered clickhouse = inl refl
first_query-IsOffered postgres = inl refl
first_query-IsOffered kafka = inl refl

offered_text :
    (source : Source) (o : Option Query)
    → IsOffered source o
    → Offers (predefined_queries source) (query_text o)
unfolding IsOffered
offered_text source none h = elim h [ ]
offered_text source (some q) h = h

call_of-IsSound :
    (b : Builder)
    → IsOffered b.selected_source b.selected_query
    → is_empty (trim (call_of b).query) ≡ false
    → IsSound (call_of b)
unfolding IsSound call_of
call_of-IsSound b h n = elim (Bool-cases b.is_custom_mode) [
  | inl e ↦ (not-is_empty _ n, inl (rw e refl))
  | inr e ↦ (not-is_empty _ n, inr (rw e (offered_text b.selected_source b.selected_query h)))
]

IsServed-query :
    (outcome : Outcome) (c : Call) (b : Builder)
    → IsServed b
    → IsSound c
    → IsServed (handle_query outcome c b)
unfolding IsServed handle_query
IsServed-query (answered results) c b h g = (h.0, EverySound-append b.calls c h.1 g)
IsServed-query (refused detail) c b h g = (h.0, EverySound-append b.calls c h.1 g)
IsServed-query threw c b h g = (h.0, EverySound-append b.calls c h.1 g)

IsServed-execute :
    (outcome : Outcome) (b : Builder) → IsServed b → IsServed (handle_execute_query outcome b)
unfolding IsServed handle_execute_query
IsServed-execute outcome b h = elim (Bool-cases (is_empty (trim (call_of b).query))) [
  | inl e ↦ rw e h
  | inr e ↦ rw e (IsServed-query outcome (call_of b) b h (call_of-IsSound b h.0 e))
]

IsServed-Move : {b b' : Builder} → Move b b' → IsServed b → IsServed b'
unfolding IsServed IsOffered handle_query_select select_source set_query_param set_custom_query
    toggle_custom_mode
IsServed-Move (executes {b} outcome) h = IsServed-execute outcome b h
IsServed-Move (selects q o) h = (o, h.1)
IsServed-Move (switches source) h = (first_query-IsOffered source, h.1)
IsServed-Move (fills key value) h = h
IsServed-Move (types s) h = h
IsServed-Move toggles h = h

-- However the builder is used, the query that is selected is one that the selected source
-- offers, and every call has a query that is not blank and has parameters only where the query
-- is one that the source of the call offers.
pub Reach-IsServed : (b : Builder) → Reach b → IsServed b
unfolding IsServed EverySound initial
Reach-IsServed _ start = (first_query-IsOffered clickhouse, tt)
Reach-IsServed _ (next {b} r m) = IsServed-Move m (Reach-IsServed b r)
