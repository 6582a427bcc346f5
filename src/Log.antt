-- ===== src/Log.antt =====
-- frontend/lib/errorLogger.ts: what the error logger hides, how it rates an error, and how it sends a
-- report. A value is the data that JSON knows; an object is the list of its entries in their order.
pub mod Redaction
pub mod Loop
pub mod Sending
pub mod Report
pub mod Outputs
use ikarin_bank.Prelude.{
  ℕ, zero, suc, ◌+◌, ◌*◌, ◌^◌, Bool, true, false, not, ◌&&◌, ◌||◌, List, [], ◌∷◌, ◌++◌, Option,
  none, some, ltb, ◌==◌, if◌then◌else◌,
}
use ikarin_bank.Prelude.Int.{ℤ}
use ikarin_bank.Text.{Text, codes, includes, starts_with, to_lower_case}
use ikarin_bank.Text.Decimal.{print}

mutual
  pub data Value : Type 0 where
    undefined null : Value
    boolean : Bool → Value
    number : Option ℤ → Value
    text : Text → Value
    array : Items → Value
    object : Entries → Value

  pub data Items : Type 0 where
    no_items : Items
    item : Value → Items → Items

  pub data Entries : Type 0 where
    no_entries : Entries
    entry : Text → Value → Entries → Entries

-- `sensitiveFields`
abbrev pub sensitive_fields : List Text
sensitive_fields =
    codes "password"
    ∷ codes "token"
    ∷ codes "secret"
    ∷ codes "key"
    ∷ codes "authorization"
    ∷ codes "cookie"
    ∷ codes "session"
    ∷ codes "csrf"
    ∷ codes "jwt"
    ∷ codes "bearer"
    ∷ []

-- `fields.some(field => s.includes(field))`
unfoldable pub includes_some : Text → List Text → Bool
includes_some s [] = false
includes_some s (field ∷ fields) = includes s field || includes_some s fields

unfoldable pub is_sensitive : Text → Bool
is_sensitive key = includes_some (to_lower_case key) sensitive_fields

abbrev pub redacted : Value
redacted = text (codes "[REDACTED]")

-- `sanitizeRecursively`; the path that it passes on is never read.
unfoldable mutual
  pub sanitize : Value → Value
  sanitize (array items) = array (sanitize_items items)
  sanitize (object entries) = object (sanitize_entries entries)
  sanitize undefined = undefined
  sanitize null = null
  sanitize (boolean b) = boolean b
  sanitize (number n) = number n
  sanitize (text s) = text s

  pub sanitize_items : Items → Items
  sanitize_items no_items = no_items
  sanitize_items (item v items) = item (sanitize v) (sanitize_items items)

  pub sanitize_entries : Entries → Entries
  sanitize_entries no_entries = no_entries
  sanitize_entries (entry key v entries) =
      entry key (if is_sensitive key then redacted else sanitize v) (sanitize_entries entries)

-- `{ ...data }` of an array: its items under their indices.
unfoldable pub index_items : ℕ → Items → Entries
index_items i no_items = no_entries
index_items i (item v items) = entry (print i) v (index_items (suc i) items)

-- `sanitizeData`
unfoldable pub sanitize_data : Value → Value
sanitize_data (array items) = sanitize (object (index_items 0 items))
sanitize_data (object entries) = sanitize (object entries)
sanitize_data undefined = undefined
sanitize_data null = null
sanitize_data (boolean b) = boolean b
sanitize_data (number n) = number n
sanitize_data (text s) = text s

pub data Severity : Type 0 where
  low medium high critical : Severity

-- A pattern of the source is a list of words that follow one another on a line.
abbrev pub Pattern : Type 0
Pattern = List Text

-- A unit that ends a line for the dot of a pattern.
unfoldable pub is_line_end : ℕ → Bool
is_line_end c = c == 10 || c == 13 || c == 8232 || c == 8233

abbrev pub drop_word : Text → Text → Text
drop_word [] s = s
drop_word (w ∷ word) [] = []
drop_word (w ∷ word) (c ∷ s) = drop_word word s

-- The rest of a pattern on the units behind a word. A later match of a word is tried too.
unfoldable pub matches_rest : Pattern → Text → Bool
matches_rest [] s = true
matches_rest (word ∷ pattern) [] = starts_with [] word && matches_rest pattern []
matches_rest (word ∷ pattern) (c ∷ s) =
    let here = matches_rest pattern (drop_word word (c ∷ s)) in
    let later = matches_rest (word ∷ pattern) s in
    (starts_with (c ∷ s) word && here) || (if is_line_end c then false else later)

-- `pattern.test(message)`, the case of letters aside: the first word anywhere, then the rest.
unfoldable pub test_lower : Pattern → Text → Bool
test_lower [] s = true
test_lower (word ∷ pattern) [] = starts_with [] word && matches_rest pattern []
test_lower (word ∷ pattern) (c ∷ s) =
    let later = test_lower (word ∷ pattern) s in
    (starts_with (c ∷ s) word && matches_rest pattern (drop_word word (c ∷ s))) || later

-- The patterns of `determineErrorSeverity`.
abbrev pub critical_patterns : List Pattern
critical_patterns =
    (codes "network" ∷ codes "error" ∷ [])
    ∷ (codes "authentication" ∷ codes "failed" ∷ [])
    ∷ (codes "permission" ∷ codes "denied" ∷ [])
    ∷ (codes "quota" ∷ codes "exceeded" ∷ [])
    ∷ (codes "security" ∷ codes "violation" ∷ [])
    ∷ []

abbrev pub high_patterns : List Pattern
high_patterns =
    (codes "database" ∷ [])
    ∷ (codes "api" ∷ codes "error" ∷ [])
    ∷ (codes "validation" ∷ codes "failed" ∷ [])
    ∷ (codes "unauthorized" ∷ [])
    ∷ []

abbrev pub medium_patterns : List Pattern
medium_patterns =
    (codes "failed" ∷ codes "to" ∷ codes "fetch" ∷ [])
    ∷ (codes "timeout" ∷ [])
    ∷ (codes "connection" ∷ [])
    ∷ (codes "bad" ∷ codes "request" ∷ [])
    ∷ []

-- `patterns.some(pattern => pattern.test(message))`
unfoldable pub test_some : List Pattern → Text → Bool
test_some [] message = false
test_some (pattern ∷ patterns) message =
    test_lower pattern (to_lower_case message) || test_some patterns message

-- `determineErrorSeverity`
unfoldable pub determine_error_severity : Text → Severity
determine_error_severity message =
    if test_some critical_patterns message
    then critical
    else if test_some high_patterns message
    then high
    else if test_some medium_patterns message
    then medium
    else low

-- The configuration that sending reads.
pub record Config : Type 0 where
  pub endpoint : Option Text
  pub enable_console_logging : Bool
  pub enable_remote_logging : Bool
  pub max_retries : Option ℕ

-- What an attempt comes to: a response that is ok, one that is not, or a `fetch` that throws.
pub data Reply : Type 0 where
  ok not_ok threw : Reply

-- What is done on the way: a `fetch`, a sleep, the report on the console.
pub data Event : Type 0 where
  posted : Event
  slept : ℕ → Event
  reported : Event

-- `maxRetries || 3`
abbrev pub retries_of : Option ℕ → ℕ
retries_of none = 3
retries_of (some zero) = 3
retries_of (some (suc n)) = suc n

-- `this.config.endpoint`, which may be missing or empty.
abbrev pub has_endpoint : Option Text → Bool
has_endpoint none = false
has_endpoint (some []) = false
has_endpoint (some (c ∷ s)) = true

-- The wait before another attempt, `attempt` being counted up already.
abbrev pub backoff : ℕ → ℕ → List Event
backoff retries attempt = if ltb attempt retries then slept (2 ^ attempt * 1000) ∷ [] else []

module _ (reply : ℕ → Reply) (retries : ℕ) where
  -- The loop with the attempts that are left: whether an attempt was answered, and the log.
  unfoldable pub send_loop : ℕ → ℕ → Bool × List Event
  send_loop zero attempt = (false, [])
  send_loop (suc left) attempt =
      let rest = send_loop left (suc attempt) in
      elim (reply attempt) [
        | ok ↦ (true, posted ∷ [])
        | not_ok ↦ (rest.0, posted ∷ (backoff retries (suc attempt) ++ rest.1))
        | threw ↦ (rest.0, posted ∷ (backoff retries (suc attempt) ++ rest.1))
      ]

-- `sendToRemote`; `reply i` is what the attempt `i` would come to.
unfoldable pub send_to_remote : (ℕ → Reply) → Config → List Event
send_to_remote reply config =
    let run = send_loop reply (retries_of config.max_retries) (retries_of config.max_retries) 0 in
    if not config.enable_remote_logging || not (has_endpoint config.endpoint)
    then []
    else if run.0
    then run.1
    else run.1 ++ (if config.enable_console_logging then reported ∷ [] else [])
