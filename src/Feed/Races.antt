-- ===== src/Feed/Races.antt =====
-- Fetches that overlap, and those that outlive their component.
use ikarin_bank.Prelude.{◌≡◌, refl, Bool, true, false, Option, none, some, arith}
use ikarin_bank.Text.{Text}
use ikarin_bank.Feed.{Feed, begin_fetch, succeed, fail, unmount, message_or}
use ikarin_bank.Feed.Rest.{Step, begins, succeeds, fails, goes}

-- What the hook returns to its component.
unfoldable pub visible : {K D : Type 0} → Feed K D → D × Bool × Bool × Option Text
visible s = (s.shown, s.loading, s.refetching, s.error)

-- Once the component is gone nothing that happens changes what the hook has returned, and no new fetch
-- begins.
pub visible-Step :
    {K D : Type 0} {s s' : Feed K D}
    → Step K D s s'
    → s.mounted ≡ false
    → (visible s' ≡ visible s) × (s'.mounted ≡ false)
unfolding visible begin_fetch succeed fail unmount
visible-Step (begins is_refresh key) h = rw h (refl, refl)
visible-Step (succeeds i d) h = rw h (refl, refl)
visible-Step (fails i message default) h = rw h (refl, refl)
visible-Step goes h = (refl, refl)

-- Answers are shown in the order in which they arrive: of two fetches that overlap, the answer
-- to the earlier one, when it comes last, replaces the answer to the later one, and an error
-- that comes last stands beside the data.
pub succeed_overtaken :
    {K D : Type 0} (s : Feed K D) (r q : Bool) (old new : K) (d e : D) (message default : Text)
    → s.mounted ≡ true
    → let both = begin_fetch q new (begin_fetch r old s) in
      (visible (succeed 0 d (succeed 0 e both)) ≡ (d, false, false, none))
      × (visible (fail 0 message default (succeed 0 e both))
          ≡ (e, false, false, some (message_or message default)))
      × ((succeed 0 d (succeed 0 e both)).pending ≡ s.pending)
unfolding visible begin_fetch succeed fail
succeed_overtaken s r q old new d e message default h = ground arith
