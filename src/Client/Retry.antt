-- ===== src/Client/Retry.antt =====
-- How often a request is sent, what it ends in, and what is left in the store.
use ikarin_bank.Prelude.{
  ℕ, zero, suc, ◌+◌, ◌≤◌, ◌≡◌, ◌⊎◌, refl, Bool, true, false, ◌&&◌, List, [], ◌∷◌, ◌++◌, Option,
  none, some, arith, ◌==◌, if◌then◌else◌,
}
use ikarin_bank.Text.{Text, codes}
use ikarin_bank.Client.{
  Store, ErrorBody, Answer, ok_body, bad_json, not_ok, failed, RefreshAnswer, Result, returned,
  thrown, network_error, Event, fetched, refreshed, slept, redirected, present, refresh_auth_token,
  error_of, State, request_loop, request, log_out,
}

abbrev pub fetches : List Event → ℕ
fetches [] = 0
fetches (fetched token ∷ events) = suc (fetches events)
fetches (refreshed ∷ events) = fetches events
fetches (slept ms ∷ events) = fetches events
fetches (redirected ∷ events) = fetches events

abbrev pub refreshes : List Event → ℕ
refreshes [] = 0
refreshes (fetched token ∷ events) = refreshes events
refreshes (refreshed ∷ events) = suc (refreshes events)
refreshes (slept ms ∷ events) = refreshes events
refreshes (redirected ∷ events) = refreshes events

abbrev pub sleep_ms : List Event → ℕ
sleep_ms [] = 0
sleep_ms (fetched token ∷ events) = sleep_ms events
sleep_ms (refreshed ∷ events) = sleep_ms events
sleep_ms (slept ms ∷ events) = ms + sleep_ms events
sleep_ms (redirected ∷ events) = sleep_ms events

abbrev pub redirects : List Event → ℕ
redirects [] = 0
redirects (fetched token ∷ events) = redirects events
redirects (refreshed ∷ events) = redirects events
redirects (slept ms ∷ events) = redirects events
redirects (redirected ∷ events) = suc (redirects events)

abbrev pub AllCarry : Option Text → List Event → Type 0
AllCarry token [] = Unit {0}
AllCarry token (fetched header ∷ events) = (header ≡ token) × AllCarry token events
AllCarry token (refreshed ∷ events) = AllCarry token events
AllCarry token (slept ms ∷ events) = AllCarry token events
AllCarry token (redirected ∷ events) = AllCarry token events

-- The message of an attempt that fails for good reason to try again.
abbrev pub failure_of : {D : Type 0} → Answer D → Option Text
failure_of (ok_body d) = none
failure_of (bad_json message) = some message
failure_of (not_ok status status_text body) = none
failure_of (failed message) = some message

-- The result that an answer decides on, if it does.
abbrev pub decided : {D : Type 0} → Answer D → Option (Result D)
decided (ok_body d) = some (returned d)
decided (bad_json message) = none
decided (not_ok status status_text body) = some (thrown (error_of status status_text body))
decided (failed message) = none

abbrev pub first_decided : {D : Type 0} → Option (Result D) → Result D → Result D
first_decided none rest = rest
first_decided (some r) rest = r

abbrev pub is_expired : {D : Type 0} → Answer D → Bool
is_expired (ok_body d) = false
is_expired (bad_json message) = false
is_expired (not_ok status status_text body) = status == 401
is_expired (failed message) = false

abbrev pub last_failure : {D : Type 0} → Answer D → Result D
last_failure (ok_body d) = returned d
last_failure (bad_json message) = thrown (network_error (codes "Network error: " ++ message))
last_failure (not_ok status status_text body) = thrown (error_of status status_text body)
last_failure (failed message) = thrown (network_error (codes "Network error: " ++ message))

module _ {D : Type 0} (fetch : ℕ → Answer D) (refresh : RefreshAnswer) (retry : Bool) where
  -- Behind the first attempt no refresh is made.
  later_bounds :
      (left attempt : ℕ) (st : State) (e : Option Text)
      → let r = request_loop fetch refresh retry left (suc attempt) st e in
        (fetches r.log ≤ left) × (refreshes r.log ≡ 0)
  unfolding request_loop
  later_bounds zero attempt st e = (omega arith, refl)
  later_bounds (suc left) attempt st e = grind (arith, later_bounds left)

  -- Whatever the network does, a request is sent three times at most, and at most one refresh
  -- is asked for.
  pub request_bounds :
      (store : Store)
      → let r = request fetch refresh retry store in (fetches r.log ≤ 3) × (refreshes r.log ≤ 1)
  unfolding request request_loop refresh_auth_token
  request_bounds store = grind (arith, later_bounds 2)

  -- When no attempt gets an answer that can be used, the request is sent three times and ends in a
  -- network error with the last message. The option `retry` decides only whether the two waits, of 500
  -- and of 1000 ms, are made: without it the request is sent again all the same.
  pub request_exhausted :
      (store : Store) (m0 m1 m2 : Text)
      → failure_of (fetch 0) ≡ some m0
      → failure_of (fetch 1) ≡ some m1
      → failure_of (fetch 2) ≡ some m2
      → let r = request fetch refresh retry store in
        (r.result ≡ thrown (network_error (codes "Network error: " ++ m2)))
        × (fetches r.log ≡ 3)
        × (sleep_ms r.log ≡ (if retry then 1500 else 0))
        × (r.store ≡ store)
  unfolding request request_loop
  request_exhausted store m0 m1 m2 h0 h1 h2 = ground arith

  -- Unless the first answer is a 401 that may be refreshed, the request ends as the first of the three
  -- answers that decides it says, and an error of the server is never tried again.
  pub request-first_decided :
      (store : Store)
      → (is_expired (fetch 0) && retry) ≡ false
      → (request fetch refresh retry store).result
        ≡ first_decided
            (decided (fetch 0))
            (first_decided (decided (fetch 1)) (last_failure (fetch 2)))
  unfolding request request_loop
  request-first_decided store h = ground arith

  later_store :
      (left attempt : ℕ) (st : State) (e : Option Text)
      → let r = request_loop fetch refresh retry left (suc attempt) st e in
        (r.store ≡ st.store) × (redirects r.log ≡ 0)
  unfolding request_loop
  later_store zero attempt st e = (refl, refl)
  later_store (suc left) attempt st e = grind (arith, later_store left)

  -- A run either leads to the login page, with both tokens gone and a 401 thrown, or it does
  -- not, and then the refresh token is kept and the access token is the old one or the one that
  -- the refresh gave.
  pub request_store :
      (store : Store)
      → let r = request fetch refresh retry store in
        ((redirects r.log ≡ 1)
          × (r.store ≡ log_out)
          × (is_expired (fetch 0) ≡ true)
          × (some r.result ≡ decided (fetch 0)))
        ⊎ ((redirects r.log ≡ 0)
            × (r.store.bank_refresh_token ≡ store.bank_refresh_token)
            × ((r.store.bank_token ≡ store.bank_token) ⊎ (r.store.bank_token ≡ present refresh)))
  unfolding request request_loop refresh_auth_token
  request_store store = grind (arith, later_store 2)

  later_headers :
      (left attempt : ℕ) (st : State) (e : Option Text)
      → AllCarry st.header (request_loop fetch refresh retry left (suc attempt) st e).log
  unfolding request_loop
  later_headers zero attempt st e = tt
  later_headers (suc left) attempt st e = grind (arith, later_headers left)

  -- After a 401 that the refresh answers with a token, the store has that token as its access token and
  -- keeps the refresh token, and every fetch behind the first two events, the refused fetch and the
  -- refresh, carries the new token.
  pub request_refreshed :
      (store : Store) (status_text r t : Text) (body : ErrorBody)
      → fetch 0 ≡ not_ok 401 status_text body
      → retry ≡ true
      → present store.bank_refresh_token ≡ some r
      → present refresh ≡ some t
      → let run = request fetch refresh retry store in
        (run.store ≡ record store { bank_token = some t })
        × (rest : List Event) × (run.log ≡ fetched (present store.bank_token) ∷ refreshed ∷ rest)
        × AllCarry (some t) rest
  unfolding request request_loop refresh_auth_token
  request_refreshed store status_text r t body h0 hr hs ht =
      let st : State = record { header = some t; store = record store { bank_token = some t } } in
      let rest = request_loop fetch refresh retry 2 1 st none in
      (ground (arith, later_store 2 0 st none), rest.log, ground arith, later_headers 2 0 st none)
