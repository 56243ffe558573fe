-- ===== src/Audit/Expiry.antt =====
-- pkg/audit/expire.go: whether an entry says that it has expired.
use binpass.Prelude.{
  ℕ, ◌+◌, ◌-◌, ◌*◌, ◌%◌, ◌^◌, Bool, [], ◌∷◌, Option, none, some, Bytes, codes, ltb, ◌==◌, bytes_eq,
  if◌then◌else◌, ℤ, pos, negsuc,
}
use binpass.Text.{has_suffix, trim_last, is_digit}
use binpass.Secret.{Secret, field}

-- A moment, in nanoseconds.
abbrev pub Time : Type 0
Time = ℕ

-- What the audit uses of package time: its three layouts, and `AddDate` by days.
pub record Clock : Type 0 where
  pub parse_rfc3339 : Bytes → Option Time
  pub parse_day : Bytes → Option Time
  pub parse_european : Bytes → Option Time
  pub add_days : Time → ℤ → Time

-- The loop over the digits, in 64 bits.
unfoldable pub day_count : ℕ → Bytes → Option ℕ
unfolding is_digit
day_count days [] = some days
day_count days (c ∷ s) =
    let rest = day_count ((days * 10 + (c - b'0')) % 2 ^ 64) s in if is_digit c then rest else none

-- The integer that a 64-bit word stands for.
abbrev pub signed_word : ℕ → ℤ
signed_word w = if ltb w (2 ^ 63) then pos w else negsuc (2 ^ 64 - w - 1)

abbrev pub later_by : Clock → Time → Option ℕ → Option Time
later_by clock now none = none
later_by clock now (some days) = some (clock.add_days now (signed_word days))

-- `parseRelativeDuration`
unfoldable pub parse_relative : Clock → Bytes → Time → Option Time
unfolding day_count trim_last
parse_relative clock val now = later_by clock now (day_count 0 (trim_last b'd' val))

abbrev or_else : Option Time → Option Time → Option Time
or_else none later = later
or_else (some t) later = some t

-- `parseExpiry`
unfoldable pub parse_expiry : Clock → Bytes → Time → Option Time
unfolding parse_relative has_suffix
parse_expiry clock val now = or_else (clock.parse_rfc3339 val) (
    or_else (clock.parse_day val) (
      or_else (clock.parse_european val)
        (if has_suffix val (codes "d") then parse_relative clock val now else none)))

-- A moment that has passed.
abbrev pub passed : Time → Option Time → Option Time
passed now none = none
passed now (some t) = if ltb t now then some t else none

-- The expiry in a field, where it has passed.
unfoldable pub field_expiry : Clock → Option Bytes → Time → Option Time
unfolding parse_expiry
field_expiry clock none now = none
field_expiry clock (some val) now =
    if val == [] then none else passed now (parse_expiry clock val now)

-- `checkExpiry`
unfoldable pub check_expiry : Clock → (Bytes → Bytes → Bool) → Secret → Time → Option Time
unfolding field field_expiry
check_expiry clock equal_fold sec now =
    or_else (field_expiry clock (field equal_fold sec (codes "expire")) now) (
      or_else (field_expiry clock (field equal_fold sec (codes "expires")) now)
        (field_expiry clock (field equal_fold sec (codes "expiry")) now))
