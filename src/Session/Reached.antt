-- ===== src/Session/Reached.antt =====
-- What holds of every session that the provider reaches.
use ikarin_bank.Prelude.{ℕ, ◌≡◌, Bool, List, [], ◌∷◌, ◌++◌, Option, none, some}
use ikarin_bank.Text.{Text}
use ikarin_bank.Client.{Store}
use ikarin_bank.Session.{
  User, Session, Timer, initial, begin_logout, end_logout, mount, login, renew_session,
  dismiss_warning, update_settings, fire,
}

-- Without a token there is no timer and no warning.
pub Quiet : Option Text → List Timer → Option ℕ → Type 0
Quiet none timers warning = (timers ≡ []) × (warning ≡ none)
Quiet (some t) timers warning = Unit

-- A token is the one that the store has.
pub Kept : Option Text → Option Text → Type 0
Kept none bank_token = Unit
Kept (some t) bank_token = bank_token ≡ some t

pub IsSound : Store → Session → Type 0
IsSound store s =
    Quiet s.token s.timers s.warning_minutes
    × Kept s.token s.store.bank_token
    × (s.store.bank_refresh_token ≡ store.bank_refresh_token)

-- What can happen to a session, at any time and in any order; only a timer that is set fires.
pub data Step (exp_of : Text → Option ℕ) : Session → Session → Type 0 where
  mounted :
      {s : Session} (now : ℕ) (fetched : Option User) → Step exp_of s (mount exp_of now fetched s)
  logged_in :
      {s : Session} (now : ℕ) (t : Text) (fetched : Option User)
      → Step exp_of s (login exp_of now t fetched s)
  leaves : {s : Session} → Step exp_of s (begin_logout exp_of s)
  left : {s : Session} (now : ℕ) → Step exp_of s (end_logout exp_of now s)
  renewed : {s : Session} (now : ℕ) (t : Option Text) → Step exp_of s (renew_session exp_of now t s)
  dismissed : {s : Session} → Step exp_of s (dismiss_warning s)
  set : {s : Session} (h e : Option Bool) → Step exp_of s (update_settings h e s)
  fired :
      {s : Session} (t : Timer) (before after : List Timer)
      → s.timers ≡ before ++ t ∷ after
      → Step exp_of s (fire t s)

pub data Reach (exp_of : Text → Option ℕ) (store : Store) : Session → Type 0 where
  start : Reach exp_of store (initial store)
  next : {s s' : Session} → Reach exp_of store s → Step exp_of s s' → Reach exp_of store s'
