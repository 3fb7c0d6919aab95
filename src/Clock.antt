-- ===== src/Clock.antt =====
-- Timestamps of signed messages: the parts of `_parse_timestamp` and of the freshness test that
-- src/babeltower/auth.py and src/babeltower/relay.py share. `datetime.fromisoformat` is a parameter.
use Prim.Native.Char.{code}
use babeltower.Prelude.{
  ℕ, ◌-◌, String, ◌<>◌, Option, none, some, Bool, if◌then◌else◌, ◌==◌, nat_eq, ltb,
}
use babeltower.Models.{seconds}

-- What `datetime.fromisoformat` gives: a ValueError, a time without a zone, or an instant.
pub data Moment : Type 0 where
  invalid naive : Moment
  aware : ℕ → Moment

-- `value.replace("Z", "+00:00")`
unfoldable pub replace_zulu : String → String
replace_zulu String.[] = ""
replace_zulu (String.◌∷◌ c s) =
    (if code c == b'Z' then "+00:00" else String.◌∷◌ c "") <> replace_zulu s

abbrev pub zoned : Moment → Option ℕ
zoned invalid = none
zoned naive = none
zoned (aware t) = some t

unfoldable pub parse_timestamp : (String → Moment) → String → Option ℕ
unfolding replace_zulu
parse_timestamp from_isoformat value = zoned (from_isoformat (replace_zulu value))

-- `abs((now - timestamp).total_seconds())`, in microseconds
abbrev pub distance : ℕ → ℕ → ℕ
distance a b = if ltb a b then b - a else a - b

-- The age is more than 60 seconds.
unfoldable pub is_stale : ℕ → ℕ → Bool
is_stale now timestamp = ltb (seconds 60) (distance now timestamp)
