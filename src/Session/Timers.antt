-- ===== src/Session/Timers.antt =====
-- The timers of a token that expires.
use ikarin_bank.Prelude.{ℕ, ◌<◌, ◌≡◌, List, [], ◌∷◌, Option, none, some, ltb, if◌then◌else◌, arith}
use ikarin_bank.Session.{Timer, warn, log_out, timers_of, warnings}

abbrev pub at_of : Timer → ℕ
at_of (warn minutes at_ms) = at_ms
at_of (log_out at_ms) = at_ms

-- Each timer comes after the one before it.
unfoldable pub AreAfter : ℕ → List Timer → Type 0
AreAfter time [] = Unit
AreAfter time (t ∷ ts) = (time < at_of t) × AreAfter (at_of t) ts

abbrev pub last_timer : List Timer → Option Timer
last_timer [] = none
last_timer (t ∷ []) = some t
last_timer (t ∷ u ∷ ts) = last_timer (u ∷ ts)

-- The timers that the effect sets for a token lie ahead and come one after the other, and the
-- last one logs out when the token expires. A token that has expired gets no timer.
pub timers_of_lem :
    (now expires_at : ℕ)
    → AreAfter now (timers_of now expires_at)
      × (last_timer (timers_of now expires_at)
          ≡ (if ltb now expires_at then some (log_out expires_at) else none))
unfolding timers_of warnings AreAfter
timers_of_lem now expires_at = (ground arith, ground arith)
