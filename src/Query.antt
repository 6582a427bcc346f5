-- ===== src/Query.antt =====
-- frontend/components/admin/QueryBuilder.tsx and the query handler of
-- frontend/app/admin/page.tsx: which query an administrator selects and what is sent. A handler
-- runs on the state of the last rendering; the call of the server ends with the outcome that it
-- is given.
pub mod Catalog
pub mod Offered
use ikarin_bank.Prelude.{
  Bool, true, false, not, ◌&&◌, ◌||◌, List, [], ◌∷◌, ◌++◌, Option, none, some, if◌then◌else◌,
}
use ikarin_bank.Text.{Text, codes, is_empty, text_eq, trim}
use ikarin_bank.Transfer.{text_or}
use ikarin_bank.Query.Catalog.{Query, clickhouse_queries, postgres_queries, kafka_queries}

pub data Source : Type 0 where
  clickhouse postgres kafka : Source

-- `PREDEFINED_QUERIES`
abbrev pub predefined_queries : Source → List Query
predefined_queries clickhouse = clickhouse_queries
predefined_queries postgres = postgres_queries
predefined_queries kafka = kafka_queries

-- `PREDEFINED_QUERIES[source][0]`
abbrev pub first_query : Source → Option Query
first_query source = elim (predefined_queries source) [ [] ↦ none | q ∷ qs ↦ some q ]

abbrev pub Params : Type 0
Params = List (Text × Text)

-- What `onQuery` gets: the query and its parameters beside the source and the configuration.
pub record Call : Type 0 where
  pub query : Text
  pub source : Source
  pub params : Params

-- The state of the builder and of the page around it, with the calls and the alerts, the first
-- one first. The results are the text of the answer.
pub record Builder : Type 0 where
  pub selected_source : Source
  pub selected_query : Option Query
  pub custom_query : Text
  pub is_custom_mode : Bool
  pub query_params : Params
  pub loading : Bool
  pub query_results : Option Text
  pub calls : List Call
  pub alerts : List Text

-- The state of the first rendering.
unfoldable pub initial : Builder
initial = record {
  selected_source = clickhouse;
  selected_query = first_query clickhouse;
  custom_query = [];
  is_custom_mode = false;
  query_params = [];
  loading = false;
  query_results = none;
  calls = [];
  alerts = [];
}

abbrev pub query_text : Option Query → Text
query_text none = []
query_text (some q) = q.query

-- How a call ends: with the results, with an answer that is not ok and its detail, or with an error.
pub data Outcome : Type 0 where
  answered : Text → Outcome
  refused : Option Text → Outcome
  threw : Outcome

abbrev pub ended : Outcome → Builder → Builder
ended (answered results) b = record b { query_results = some results }
ended (refused detail) b = record b {
  alerts = b.alerts ++ (codes "Query failed: " ++ text_or detail (codes "Unknown error")) ∷ [];
}
ended threw b = record b {
  alerts = b.alerts ++ codes "Failed to execute query. Please check your connection." ∷ [];
}

-- `handleQuery` of the page.
unfoldable pub handle_query : Outcome → Call → Builder → Builder
handle_query outcome call b =
    record (ended outcome (record b { loading = true; calls = b.calls ++ call ∷ [] })) {
      loading = false;
    }

-- What `handleExecuteQuery` sends.
unfoldable pub call_of : Builder → Call
call_of b = record {
  query = if b.is_custom_mode then b.custom_query else query_text b.selected_query;
  source = b.selected_source;
  params = if b.is_custom_mode then [] else b.query_params;
}

-- `handleExecuteQuery`
unfoldable pub handle_execute_query : Outcome → Builder → Builder
handle_execute_query outcome b =
    if is_empty (trim (call_of b).query) then b else handle_query outcome (call_of b) b

-- `handleQuerySelect`
unfoldable pub handle_query_select : Query → Builder → Builder
handle_query_select q b = record b {
  selected_query = some q;
  is_custom_mode = false;
  query_params = [];
}

-- The buttons of the sources.
unfoldable pub select_source : Source → Builder → Builder
select_source source b = record b {
  selected_source = source;
  selected_query = first_query source;
  is_custom_mode = false;
}

-- `{ ...prev, [paramName]: value }`
unfoldable pub set_param : Text → Text → Params → Params
set_param key value [] = (key, value) ∷ []
set_param key value ((k, v) ∷ ps) =
    if text_eq k key then (k, value) ∷ ps else (k, v) ∷ set_param key value ps

unfoldable pub set_query_param : Text → Text → Builder → Builder
set_query_param key value b = record b { query_params = set_param key value b.query_params }

unfoldable pub set_custom_query : Text → Builder → Builder
set_custom_query s b = record b { custom_query = s }

unfoldable pub toggle_custom_mode : Builder → Builder
toggle_custom_mode b = record b { is_custom_mode = not b.is_custom_mode }
