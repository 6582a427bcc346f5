-- ===== src/Log/Loop.antt =====
-- The loop of sendToRemote: what it logs, attempt by attempt.
use ikarin_bank.Prelude.{
  ℕ, zero, suc, ◌+◌, ◌*◌, ◌^◌, ◌≤◌, ◌≡◌, ◌⊎◌, refl, Bool, true, false, not, List, [], ◌∷◌, ◌++◌,
  ltb, sym, ap, ◌∙◌, Bool-cases, inl, inr, if◌then◌else◌, arith,
}
use ikarin_bank.Log.{Reply, ok, not_ok, threw, Event, posted, slept, reported, backoff, send_loop}

abbrev pub posts : List Event → ℕ
posts [] = 0
posts (posted ∷ log) = suc (posts log)
posts (slept n ∷ log) = posts log
posts (reported ∷ log) = posts log

abbrev pub sleep_ms : List Event → ℕ
sleep_ms [] = 0
sleep_ms (posted ∷ log) = sleep_ms log
sleep_ms (slept n ∷ log) = n + sleep_ms log
sleep_ms (reported ∷ log) = sleep_ms log

abbrev pub reports : List Event → ℕ
reports [] = 0
reports (posted ∷ log) = reports log
reports (slept n ∷ log) = reports log
reports (reported ∷ log) = suc (reports log)

pub reports-append : (xs ys : List Event) → reports (xs ++ ys) ≡ reports xs + reports ys
reports-append [] ys = omega arith
reports-append (posted ∷ xs) ys = omega (arith, reports-append xs ys)
reports-append (slept n ∷ xs) ys = omega (arith, reports-append xs ys)
reports-append (reported ∷ xs) ys = omega (arith, reports-append xs ys)

-- No attempt of the next `left` ones is answered.
unfoldable pub all_fail : (ℕ → Reply) → ℕ → ℕ → Bool
all_fail reply zero attempt = true
all_fail reply (suc left) attempt = elim (reply attempt) [
  | ok ↦ false
  | not_ok ↦ all_fail reply left (suc attempt)
  | threw ↦ all_fail reply left (suc attempt)
]

posts-backoff :
    (retries attempt : ℕ) (log : List Event) → posts (backoff retries attempt ++ log) ≡ posts log
posts-backoff retries attempt log = ground arith

reports-backoff :
    (retries attempt : ℕ) (log : List Event)
    → reports (backoff retries attempt ++ log) ≡ reports log
reports-backoff retries attempt log = ground arith

sleep_ms-backoff :
    (retries attempt : ℕ) (log : List Event)
    → sleep_ms (backoff retries attempt ++ log)
      ≡ (if ltb attempt retries then 2 ^ attempt * 1000 else 0) + sleep_ms log
sleep_ms-backoff retries attempt log = ground arith

-- Replies are cases that their users split on.
abbrev is_ok : Reply → Bool
is_ok ok = true
is_ok not_ok = false
is_ok threw = false

Reply-cases : (k : Reply) → (k ≡ ok) ⊎ ((k ≡ not_ok) ⊎ (k ≡ threw))
Reply-cases ok = inl refl
Reply-cases not_ok = inr (inl refl)
Reply-cases threw = inr (inr refl)

module _ (reply : ℕ → Reply) (retries : ℕ) where
  failed_step :
      (left attempt : ℕ)
      → is_ok (reply attempt) ≡ false
      → (send_loop reply retries (suc left) attempt ≡ (
        (send_loop reply retries left (suc attempt)).0,
        posted ∷ (backoff retries (suc attempt) ++ (send_loop reply retries left (suc attempt)).1),
      ))
        × (all_fail reply (suc left) attempt ≡ all_fail reply left (suc attempt))
  unfolding send_loop all_fail
  failed_step left attempt e = elim (Reply-cases (reply attempt)) [
    | inl k ↦ absurd (ground arith)
    | inr (inl k) ↦ rw (send_loop, all_fail, k) (refl, refl)
    | inr (inr k) ↦ rw (send_loop, all_fail, k) (refl, refl)
  ]

  ok_step :
      (left attempt : ℕ)
      → is_ok (reply attempt) ≡ true
      → (send_loop reply retries (suc left) attempt ≡ (true, posted ∷ []))
        × (all_fail reply (suc left) attempt ≡ false)
  unfolding send_loop all_fail
  ok_step left attempt e = elim (Reply-cases (reply attempt)) [
    | inl k ↦ rw (send_loop, all_fail, k) (refl, refl)
    | inr (inl k) ↦ absurd (ground arith)
    | inr (inr k) ↦ absurd (ground arith)
  ]

  pub loop_bounds :
      (left attempt : ℕ)
      → let run = send_loop reply retries left attempt in
        (posts run.1 ≤ left) × (reports run.1 ≡ 0) × (run.0 ≡ not (all_fail reply left attempt))
  unfolding send_loop all_fail
  loop_bounds zero attempt = (omega arith, refl, refl)
  loop_bounds (suc left) attempt =
      let rest = loop_bounds left (suc attempt) in
      elim (Bool-cases (is_ok (reply attempt))) [
        | inl e ↦
            rw ((ok_step left attempt e).0)
              (rw ((ok_step left attempt e).1) (omega arith, refl, refl))
        | inr e ↦ rw ((failed_step left attempt e).0) (
            rw ((failed_step left attempt e).1) (
              omega (
                arith,
                rest.0,
                posts-backoff retries (suc attempt) (send_loop reply retries left (suc attempt)).1,
              ),
              omega (
                arith,
                rest.1,
                reports-backoff retries (suc attempt)
                    (send_loop reply retries left (suc attempt)).1,
              ),
              rest.2,
            ))
      ]

  pub loop_failing :
      (left attempt : ℕ)
      → attempt + suc left ≡ retries
      → all_fail reply (suc left) attempt ≡ true
      → let run = send_loop reply retries (suc left) attempt in
        (posts run.1 ≡ suc left) × (sleep_ms run.1 + 2 ^ suc attempt * 1000 ≡ 2 ^ retries * 1000)
  unfolding send_loop
  loop_failing zero attempt e h = elim (Bool-cases (is_ok (reply attempt))) [
    | inl k ↦ absurd (let f = (ok_step zero attempt k).1 in ground arith)
    | inr k ↦
        let same : suc attempt ≡ retries = omega arith in
        let power = ap (λ n. 2 ^ n * 1000) same in
        let wait = sleep_ms-backoff retries (suc attempt) [] in
        let last : ltb (suc attempt) retries ≡ false = ground arith in
        rw ((failed_step zero attempt k).0)
          (omega (arith, posts-backoff retries (suc attempt) []), grind arith)
  ]
  loop_failing (suc left) attempt e h = elim (Bool-cases (is_ok (reply attempt))) [
    | inl k ↦ absurd (let f = (ok_step (suc left) attempt k).1 in ground arith)
    | inr k ↦
        let rest =
          loop_failing left (suc attempt) (omega arith)
            (sym ((failed_step (suc left) attempt k).1) ∙ h) in
        let log = (send_loop reply retries (suc left) (suc attempt)).1 in
        let wait = sleep_ms-backoff retries (suc attempt) log in
        let more : ltb (suc attempt) retries ≡ true = ground arith in
        rw ((failed_step (suc left) attempt k).0)
          (omega (arith, rest.0, posts-backoff retries (suc attempt) log), grind arith)
  ]

  pub loop_posts : (left attempt : ℕ) → 1 ≤ posts (send_loop reply retries (suc left) attempt).1
  loop_posts left attempt = elim (Bool-cases (is_ok (reply attempt))) [
    | inl k ↦ rw ((ok_step left attempt k).0) (omega arith)
    | inr k ↦ rw ((failed_step left attempt k).0) (omega arith)
  ]
