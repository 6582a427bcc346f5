-- ===== src/Session.antt =====
-- frontend/lib/AuthContext.tsx: the state of the session, its handlers and its timers. A
-- handler runs to the end of its network call, with the outcome it is given; only `logout`,
-- which nothing awaits, is split at its call into a beginning and an end. Times are
-- milliseconds.
pub mod Timers
pub mod Reached
use ikarin_bank.Prelude.{
  ℕ, suc, ◌+◌, ◌-◌, ◌*◌, ◌/◌, Bool, true, false, not, List, [], ◌∷◌, ◌++◌, Option, none, some, map,
  ltb, ◌==◌, if◌then◌else◌, length,
}
use ikarin_bank.Text.{Text, codes, text_eq, split_at, pad_end}
use ikarin_bank.Client.{Store, present}

-- `WARNING_THRESHOLDS_MINUTES`
abbrev pub warning_thresholds_minutes : List ℕ
warning_thresholds_minutes = 15 ∷ 5 ∷ 1 ∷ []

-- `.replace(/-/g, '+').replace(/_/g, '/')`, a unit at a time.
abbrev pub base64_unit : ℕ → ℕ
base64_unit c = if c == 45 then 43 else if c == 95 then 47 else c

-- The second part of a text between points, where it is there and not empty.
abbrev pub second_part : List Text → Option Text
second_part [] = none
second_part ([] ∷ parts) = none
second_part ((c ∷ s) ∷ parts) = some (c ∷ s)

-- What the context keeps of a user.
pub record User : Type 0 where
  pub time_format : Text
  pub date_format : Text

-- `Settings`
pub record Settings : Type 0 where
  pub use_24_hour : Bool
  pub use_eu_dates : Bool

pub data Timer : Type 0 where
  warn : (minutes at_ms : ℕ) → Timer
  log_out : (at_ms : ℕ) → Timer

pub data Page : Type 0 where
  client_page login_page : Page

-- The state of the provider, with the items of `localStorage`, the pages that the router was
-- sent to, the last one first, the number of logouts that wait for the server, and the
-- preferences sent to it.
pub record Session : Type 0 where
  pub user : Option User
  pub token : Option Text
  pub is_loading : Bool
  pub settings : Settings
  pub warning_minutes : Option ℕ
  pub timers : List Timer
  pub store : Store
  pub pages : List Page
  pub leaving : ℕ
  pub preferences : List (Text × Text)

-- The state of the first rendering.
unfoldable pub initial : Store → Session
initial store = record {
  user = none;
  token = none;
  is_loading = true;
  settings = record { use_24_hour = false; use_eu_dates = false };
  warning_minutes = none;
  timers = [];
  store = store;
  pages = [];
  leaving = 0;
  preferences = [];
}

abbrev pub same_token : Option Text → Option Text → Bool
same_token none none = true
same_token none (some t) = false
same_token (some s) none = false
same_token (some s) (some t) = text_eq s t

-- The timers of the thresholds that are still ahead, then that of the expiry.
unfoldable pub warnings : ℕ → ℕ → List ℕ → List Timer
warnings now expires_at [] = []
warnings now expires_at (minutes ∷ rest) =
    let later = warnings now expires_at rest in
    if ltb (now + minutes * 60000) expires_at
    then warn minutes (expires_at - minutes * 60000) ∷ later
    else later

unfoldable pub timers_of : ℕ → ℕ → List Timer
timers_of now expires_at =
    warnings now expires_at warning_thresholds_minutes
    ++ (if ltb now expires_at then log_out expires_at ∷ [] else [])

-- `exp_of s` is the claim `exp` of `JSON.parse(atob(s))`, in whole seconds; `none` where that
-- throws or has no number there.
module _ (exp_of : Text → Option ℕ) where
  -- `getTokenExpiryMs`
  unfoldable pub get_token_expiry_ms : Text → Option ℕ
  get_token_expiry_ms token = elim (second_part (split_at 46 token).1) [
    | none ↦ none
    | some payload ↦
        let base64 = map base64_unit payload in
        elim (exp_of (pad_end ((length base64 + 3) / 4 * 4) 61 base64)) [
          | none ↦ none
          | some seconds ↦ some (seconds * 1000)
        ]
  ]

  unfoldable pub timers_for : ℕ → Option Text → List Timer
  timers_for now none = []
  timers_for now (some []) = []
  timers_for now (some (c ∷ s)) = elim (get_token_expiry_ms (c ∷ s)) [
    | none ↦ []
    | some expires_at ↦ timers_of now expires_at
  ]

  -- `setToken`, and the effect where the token is a new one.
  unfoldable pub set_token : ℕ → Option Text → Session → Session
  set_token now token s =
      if same_token token s.token
      then s
      else record s { token = token; warning_minutes = none; timers = timers_for now token }

  -- `logout` up to its call of the server, and behind it.
  unfoldable pub begin_logout : Session → Session
  begin_logout s = record s { leaving = suc s.leaving }

  unfoldable pub end_logout : ℕ → Session → Session
  end_logout now s =
      let cleared =
        set_token now none (record s { store = record s.store { bank_token = none } }) in
      record cleared { user = none; pages = login_page ∷ cleared.pages; leaving = s.leaving - 1 }

  -- `fetchUser`, with the user that the server returns or `none` where the call fails.
  unfoldable pub fetch_user : Option User → Session → Session
  fetch_user none s = record (begin_logout s) { is_loading = false }
  fetch_user (some user) s = record s {
    user = some user;
    settings = record {
      use_24_hour = text_eq user.time_format (codes "24h");
      use_eu_dates = text_eq user.date_format (codes "EU");
    };
    is_loading = false;
  }

  -- The effect of the first rendering.
  unfoldable pub mount : ℕ → Option User → Session → Session
  mount now fetched s = elim (present s.store.bank_token) [
    | none ↦ record s { is_loading = false }
    | some saved_token ↦ fetch_user fetched (set_token now (some saved_token) s)
  ]

  abbrev pub stored : Text → Session → Session
  stored token s = record s { store = record s.store { bank_token = some token } }

  -- `login`
  unfoldable pub login : ℕ → Text → Option User → Session → Session
  login now new_token fetched s =
      let s' = fetch_user fetched (set_token now (some new_token) (stored new_token s)) in
      record s' { pages = client_page ∷ s'.pages }

  -- `renewSession`, with the token that the server returns or `none` where the call fails.
  unfoldable pub renew_session : ℕ → Option Text → Session → Session
  renew_session now none s = begin_logout s
  renew_session now (some access_token) s =
      record (set_token now (some access_token) (stored access_token s)) { warning_minutes = none }

-- `dismissWarning`
unfoldable pub dismiss_warning : Session → Session
dismiss_warning s = record s { warning_minutes = none }

abbrev pub flag_or : Option Bool → Bool → Bool
flag_or none d = d
flag_or (some b) d = b

-- `updateSettings`: what is given replaces what is set, and with a token the two formats go to
-- the server, whose answer changes nothing.
unfoldable pub update_settings : Option Bool → Option Bool → Session → Session
update_settings use_24_hour use_eu_dates s =
    let updated : Settings = record {
      use_24_hour = flag_or use_24_hour s.settings.use_24_hour;
      use_eu_dates = flag_or use_eu_dates s.settings.use_eu_dates;
    } in
    record s {
      settings = updated;
      preferences = elim (present s.token) [
        | none ↦ s.preferences
        | some t ↦
            (
              if updated.use_24_hour then codes "24h" else codes "12h",
              if updated.use_eu_dates then codes "EU" else codes "US",
            )
            ∷ s.preferences
      ];
    }

-- What a timer does.
unfoldable pub fire : Timer → Session → Session
fire (warn minutes at_ms) s = record s { warning_minutes = some minutes }
fire (log_out at_ms) s = record s { leaving = suc s.leaving }
