-- ===== src/Audit/Relative.antt =====
-- pkg/audit/expire.go: an expiry of so many days is counted from the audit itself.
use binpass.Prelude.{◌<◌, ℕ, ◌<◌, ◌^◌, [], ◌∷◌, ◌++◌, Option, none, some, Bytes, bytes_eq, pos, ◌≡◌}
use binpass.Secret.{Secret}
use binpass.Audit.Expiry.{Time, Clock, day_count}

-- A field that is absent, or holds a number of days that is no date.
abbrev pub IsRelative : Clock → Option Bytes → Type 0
IsRelative clock none = Unit {0}
IsRelative clock (some val) =
    (digits : Bytes) × (n : ℕ) × (val ≡ digits ++ b'd' ∷ [])
    × (day_count 0 digits ≡ some n)
    × (n < 2 ^ 63)
    × (clock.parse_rfc3339 val ≡ none)
    × (clock.parse_day val ≡ none)
    × (clock.parse_european val ≡ none)

-- The moment comes from adding days to another one, and is earlier than that.
abbrev pub WentBack : Clock → Time → Time → Type 0
WentBack clock now t = (n : ℕ) × (n < 2 ^ 63) × (t ≡ clock.add_days now (pos n)) × (t < now)
