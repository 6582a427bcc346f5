-- ===== src/Tests/Client.antt =====
-- Requests on concrete networks.
use ikarin_bank.Prelude.{
  ℕ, zero, suc, ◌≡◌, ◌≤◌, ◌⊎◌, refl, true, false, List, ◌∷◌, ◌++◌, none, some, if◌then◌else◌,
}
use ikarin_bank.Text.{codes}
use ikarin_bank.Client.{
  Store, Answer, ok_body, not_ok, failed, plain, unreadable, thrown, network_error, Event, fetched,
  refreshed, request, present, log_out,
}
use ikarin_bank.Client.Retry.{
  fetches, refreshes, sleep_ms, redirects, decided, first_decided, is_expired, last_failure,
  AllCarry, request_bounds, request_exhausted, request-first_decided, request_store,
  request_refreshed,
}

abbrev store : Store
store = record { bank_token = some (codes "old"); bank_refresh_token = some (codes "r") }

abbrev down : ℕ → Answer ℕ
down i = failed (codes "Failed to fetch")

-- A 401, then an answer.
abbrev expired : ℕ → Answer ℕ
expired zero = not_ok 401 (codes "Unauthorized") (plain (codes "expired"))
expired (suc i) = ok_body 7

-- A failure, then an error of the server.
abbrev flaky : ℕ → Answer ℕ
flaky zero = failed (codes "reset")
flaky (suc i) = not_ok 503 (codes "Unavailable") unreadable

request_bounds_example :
    let r = request expired (some (codes "new")) true store in
    (fetches r.log ≤ 3) × (refreshes r.log ≤ 1)
request_bounds_example = request_bounds expired (some (codes "new")) true store

-- Three attempts, though `retry` is off.
request_exhausted_example :
    let r = request down none false store in
    (r.result ≡ thrown (network_error (codes "Network error: " ++ codes "Failed to fetch")))
    × (fetches r.log ≡ 3)
    × (sleep_ms r.log ≡ (if false then 1500 else 0))
    × (r.store ≡ store)
request_exhausted_example =
    request_exhausted down none false store (codes "Failed to fetch") (codes "Failed to fetch")
      (codes "Failed to fetch") refl refl refl

request-first_decided_example :
    (request flaky none true store).result
    ≡ first_decided (decided (flaky 0)) (first_decided (decided (flaky 1)) (last_failure (flaky 2)))
request-first_decided_example = request-first_decided flaky none true store refl

request_store_example :
    let r = request expired none true store in
    ((redirects r.log ≡ 1)
      × (r.store ≡ log_out)
      × (is_expired (expired 0) ≡ true)
      × (some r.result ≡ decided (expired 0)))
    ⊎ ((redirects r.log ≡ 0)
        × (r.store.bank_refresh_token ≡ store.bank_refresh_token)
        × ((r.store.bank_token ≡ store.bank_token) ⊎ (r.store.bank_token ≡ present none)))
request_store_example = request_store expired none true store

request_refreshed_example :
    let run = request expired (some (codes "new")) true store in
    (run.store ≡ record store { bank_token = some (codes "new") })
    × (rest : List Event) × (run.log ≡ fetched (present store.bank_token) ∷ refreshed ∷ rest)
    × AllCarry (some (codes "new")) rest
request_refreshed_example =
    request_refreshed expired (some (codes "new")) true store (codes "Unauthorized") (codes "r")
      (codes "new") (plain (codes "expired")) refl refl refl refl
