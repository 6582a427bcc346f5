-- ===== src/Log/Sending.antt =====
-- How often a report is sent, and how long the logger waits.
use ikarin_bank.Prelude.{
  ℕ, zero, suc, ◌+◌, ◌*◌, ◌^◌, ◌≤◌, ◌≡◌, refl, Bool, true, false, not, ◌&&◌, ◌||◌, List, [], ◌∷◌,
  ◌++◌, append-nil, Option, none, some, sym, ap, ◌∙◌, Bool-cases, inl, inr, if◌then◌else◌, arith,
}
use ikarin_bank.Log.{
  Config, Reply, Event, posted, slept, reported, retries_of, has_endpoint, send_loop,
  send_to_remote,
}
use ikarin_bank.Log.Loop.{
  posts, sleep_ms, reports, reports-append, all_fail, loop_bounds, loop_failing, loop_posts,
}

retries_positive : (o : Option ℕ) → (n : ℕ) × (retries_of o ≡ suc n)
retries_positive none = (2, refl)
retries_positive (some zero) = (2, refl)
retries_positive (some (suc n)) = (n, refl)

all_failing :
    (reply : ℕ → Reply) (n m : ℕ)
    → n ≡ suc m
    → all_fail reply n 0 ≡ true
    → (posts (send_loop reply n n 0).1 ≡ n)
      × (sleep_ms (send_loop reply n n 0).1 + 2000 ≡ 2 ^ n * 1000)
all_failing reply n m e h =
    rw e (loop_failing reply (suc m) m 0 (omega arith) (sym (ap (λ k. all_fail reply k 0) e) ∙ h))

one_post : (reply : ℕ → Reply) (n m : ℕ) → n ≡ suc m → 1 ≤ posts (send_loop reply n n 0).1
one_post reply n m e = rw e (loop_posts reply (suc m) m 0)

-- What is behind the loop.
abbrev behind : Bool → Bool → List Event
behind sent console = if sent then [] else if console then reported ∷ [] else []

posts-behind :
    (log : List Event) (sent console : Bool) → posts (log ++ behind sent console) ≡ posts log
posts-behind [] sent console = ground arith
posts-behind (posted ∷ log) sent console = omega (arith, posts-behind log sent console)
posts-behind (slept n ∷ log) sent console = posts-behind log sent console
posts-behind (reported ∷ log) sent console = posts-behind log sent console

sleep_ms-behind :
    (log : List Event) (sent console : Bool) → sleep_ms (log ++ behind sent console) ≡ sleep_ms log
sleep_ms-behind [] sent console = ground arith
sleep_ms-behind (posted ∷ log) sent console = sleep_ms-behind log sent console
sleep_ms-behind (slept n ∷ log) sent console = omega (arith, sleep_ms-behind log sent console)
sleep_ms-behind (reported ∷ log) sent console = sleep_ms-behind log sent console

send_to_remote_on :
    (reply : ℕ → Reply) (config : Config)
    → (config.enable_remote_logging && has_endpoint config.endpoint) ≡ true
    → send_to_remote reply config
      ≡ (send_loop reply (retries_of config.max_retries) (retries_of config.max_retries) 0).1
        ++ behind
            (send_loop reply (retries_of config.max_retries) (retries_of config.max_retries) 0).0
            config.enable_console_logging
unfolding send_to_remote
send_to_remote_on reply config on =
    let off : (not config.enable_remote_logging || not (has_endpoint config.endpoint)) ≡ false =
      ground arith in
    let retries = retries_of config.max_retries in
    rw off (elim (Bool-cases (send_loop reply retries retries 0).0) [
      | inl e ↦ rw e (sym (append-nil (send_loop reply retries retries 0).1))
      | inr e ↦ rw e refl
    ])

-- With sending on and an endpoint, sendToRemote makes one attempt at least and at most as many
-- as are configured, three where none or 0 is; and it reports the failure on the console
-- exactly when no attempt is answered and the console is on.
pub send_to_remote_bounds :
    (reply : ℕ → Reply) (config : Config)
    → (config.enable_remote_logging && has_endpoint config.endpoint) ≡ true
    → let retries = retries_of config.max_retries in
      let log = send_to_remote reply config in
      (1 ≤ posts log)
      × (posts log ≤ retries)
      × (reports log ≡ (if all_fail reply retries 0 && config.enable_console_logging then 1 else 0))
send_to_remote_bounds reply config on =
    let retries = retries_of config.max_retries in
    let run = send_loop reply retries retries 0 in
    let bounds = loop_bounds reply retries retries 0 in
    let (m, e) = retries_positive config.max_retries in
    let reports_behind : reports (run.1 ++ behind run.0 config.enable_console_logging)
        ≡ (if all_fail reply retries 0 && config.enable_console_logging then 1 else 0) =
      reports-append run.1 (behind run.0 config.enable_console_logging)
      ∙ rw bounds.1 (rw bounds.2 (ground arith)) in
    rw (send_to_remote_on reply config on) (
      omega (
        arith,
        posts-behind run.1 run.0 config.enable_console_logging,
        one_post reply retries m e,
      ),
      omega (arith, posts-behind run.1 run.0 config.enable_console_logging, bounds.0),
      reports_behind,
    )

-- When every attempt fails, sendToRemote with sending on and an endpoint makes all the attempts
-- that are configured, and its waits add up to 2 ^ n - 2 seconds for n attempts.
send_to_remote_failing :
    (reply : ℕ → Reply) (config : Config)
    → (config.enable_remote_logging && has_endpoint config.endpoint) ≡ true
    → all_fail reply (retries_of config.max_retries) 0 ≡ true
    → let retries = retries_of config.max_retries in
      let log = send_to_remote reply config in
      (posts log ≡ retries) × (sleep_ms log + 2000 ≡ 2 ^ retries * 1000)
send_to_remote_failing reply config on h = rw (send_to_remote_on reply config on) (
    let retries = retries_of config.max_retries in
    let run = send_loop reply retries retries 0 in
    let (m, e) = retries_positive config.max_retries in
    let all = all_failing reply retries m e h in
    (
      posts-behind run.1 run.0 config.enable_console_logging ∙ all.0,
      omega (arith, sleep_ms-behind run.1 run.0 config.enable_console_logging, all.1),
    ))
