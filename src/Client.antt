-- ===== src/Client.antt =====
-- frontend/lib/api/client.ts: the request loop, with the refresh of an expired token and the retries.
-- The network is a script: what `fetch` answers in each call, in order. A run returns what `request`
-- returns or throws, with the store and a log of what was done on the way.
pub mod Retry
use ikarin_bank.Prelude.{
  ℕ, zero, suc, ◌+◌, ◌*◌, Bool, true, false, not, ◌&&◌, List, [], ◌∷◌, ◌++◌, Option, none, some,
  ltb, leb, ◌==◌, if◌then◌else◌,
}
use ikarin_bank.Text.{Text, codes, trim, is_empty}
use ikarin_bank.Text.Decimal.{print}

abbrev pub max_retries : ℕ
max_retries = 2

abbrev pub retry_delay_ms : ℕ
retry_delay_ms = 500

-- The two items of `localStorage` that the client uses.
pub record Store : Type 0 where
  pub bank_token : Option Text
  pub bank_refresh_token : Option Text

-- The body of a response that is not ok: JSON with the text fields `detail` and `code` where it is an
-- object that has them, text that is not JSON, or a body that cannot be read.
pub data ErrorBody : Type 0 where
  json : (detail code : Option Text) → ErrorBody
  plain : Text → ErrorBody
  unreadable : ErrorBody

-- What one `fetch` comes to. `ok_body` is a response with a status in 200 to 299, its body parsed;
-- `bad_json` is one whose body is no JSON; `failed` is a `fetch` that throws, with its message.
pub data Answer (D : Type 0) : Type 0 where
  ok_body : D → Answer D
  bad_json : Text → Answer D
  not_ok : (status : ℕ) (status_text : Text) → ErrorBody → Answer D
  failed : Text → Answer D

-- What the call of `/api/auth/refresh` comes to: an access token in the body of an ok response, or
-- anything else.
abbrev pub RefreshAnswer : Type 0
RefreshAnswer = Option Text

-- Errors that `request` throws.
pub data RequestError : Type 0 where
  api_error : (status : ℕ) (message : Text) (body : ErrorBody) (code : Option Text) → RequestError
  network_error : Text → RequestError

pub data Result (D : Type 0) : Type 0 where
  returned : D → Result D
  thrown : RequestError → Result D

-- What a run does, in order: a `fetch` with a token in its header, a `fetch` of the refresh, a sleep,
-- and the way to the login page.
pub data Event : Type 0 where
  fetched : Option Text → Event
  refreshed : Event
  slept : ℕ → Event
  redirected : Event

-- The text of a token that is there and not empty.
abbrev pub present : Option Text → Option Text
present none = none
present (some []) = none
present (some (c ∷ s)) = some (c ∷ s)

-- `refreshAuthToken` in a browser, with the answer that the call would get. A token that is missing or
-- empty makes no call.
unfoldable pub refresh_auth_token : RefreshAnswer → Store → Option Text × Store × List Event
refresh_auth_token answer store = elim (present store.bank_refresh_token) [
  | none ↦ (none, store, [])
  | some refresh_token ↦ elim (present answer) [
    | none ↦ (none, store, refreshed ∷ [])
    | some token ↦ (some token, record store { bank_token = some token }, refreshed ∷ [])
  ]
]

abbrev pub or_text : Option Text → Text → Text
or_text none d = d
or_text (some []) d = d
or_text (some (c ∷ s)) d = c ∷ s

abbrev pub detail_of : ErrorBody → Option Text
detail_of (json detail code) = detail
detail_of (plain s) = none
detail_of unreadable = none

abbrev pub plain_of : ErrorBody → Option Text
plain_of (json detail code) = none
plain_of (plain s) = some (trim s)
plain_of unreadable = none

-- `statusMsg`
unfoldable pub status_msg : ℕ → Text → ErrorBody → Text
status_msg status status_text body =
    or_text (detail_of body)
      (or_text (some status_text) (or_text (plain_of body) (codes "Status " ++ print status)))

abbrev pub code_of : ErrorBody → Option Text
code_of (json detail none) = detail
code_of (json detail (some [])) = detail
code_of (json detail (some (c ∷ s))) = some (c ∷ s)
code_of (plain s) = none
code_of unreadable = none

-- The `ApiError` of a response that is not ok.
unfoldable pub error_of : ℕ → Text → ErrorBody → RequestError
error_of status status_text body =
    api_error status (codes "API Error: " ++ status_msg status status_text body) body (code_of body)

-- The state of the loop: the token in the headers and the store.
pub record State : Type 0 where
  pub header : Option Text
  pub store : Store

-- The wait after a failed attempt.
abbrev pub pause : Bool → ℕ → List Event
pause retry attempt =
    if retry && ltb attempt max_retries then slept (retry_delay_ms * (attempt + 1)) ∷ [] else []

abbrev pub log_out : Store
log_out = record { bank_token = none; bank_refresh_token = none }

-- A run: its result, the store behind it and its log.
pub record Run (D : Type 0) : Type 0 where
  pub result : Result D
  pub store : Store
  pub log : List Event

abbrev pub logged : {D : Type 0} → List Event → Run D → Run D
logged events run = record run { log = events ++ run.log }

abbrev pub last_message : Option Text → Text
last_message none = codes "Unknown network error"
last_message (some message) = message

-- `fetch i` is what `fetch` answers in attempt `i`, and `refresh` what the call of the refresh would
-- get; `retry` is the option.
module _ {D : Type 0} (fetch : ℕ → Answer D) (refresh : RefreshAnswer) (retry : Bool) where
  -- The loop, with the attempts that are left and the message of the last error.
  unfoldable pub request_loop : ℕ → ℕ → State → Option Text → Run D
  request_loop zero attempt st last_error = record {
    result = thrown (network_error (codes "Network error: " ++ last_message last_error));
    store = st.store;
    log = [];
  }
  request_loop (suc left) attempt st last_error = elim (fetch attempt) [
    | ok_body data_of ↦ record {
      result = returned data_of;
      store = st.store;
      log = fetched st.header ∷ [];
    }
    | bad_json message ↦
        logged (fetched st.header ∷ pause retry attempt)
          (request_loop left (suc attempt) st (some message))
    | failed message ↦
        logged (fetched st.header ∷ pause retry attempt)
          (request_loop left (suc attempt) st (some message))
    | not_ok status status_text body ↦ elim (status == 401 && attempt == 0 && retry) [
      | false ↦ record {
        result = thrown (error_of status status_text body);
        store = st.store;
        log = fetched st.header ∷ [];
      }
      | true ↦
          (let (new_token, store', events) = refresh_auth_token refresh st.store in
            elim new_token [
              | some token ↦ logged (fetched st.header ∷ events) (
                  request_loop left (suc attempt) (record { header = some token; store = store' })
                    last_error)
              | none ↦ record {
                result = thrown (error_of status status_text body);
                store = log_out;
                log = fetched st.header ∷ (events ++ redirected ∷ []);
              }
            ])
    ]
  ]

  -- `request` in a browser, from a store.
  unfoldable pub request : Store → Run D
  request store =
      request_loop (suc max_retries) 0 (record { header = present store.bank_token; store = store })
        none
