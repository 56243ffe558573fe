-- ===== src/Otp.antt =====
-- pkg/otp/otp.go: one-time passwords from otpauth:// URIs.
pub mod Code
pub mod Laws
use binpass.Prelude.{
  ℕ, zero, suc, ◌+◌, ◌-◌, ◌*◌, ◌/◌, ◌%◌, ◌^◌, Bool, true, false, not, ◌&&◌, ◌||◌, List, [], ◌∷◌,
  ◌++◌, Option, none, some, Bytes, nat_eqb, leb, ltb, if◌then◌else◌, length, drop, codes, ◌==◌,
  bytes_eq, Result, ok, err, ◌>>=◌, ◌>>◌, guard, ℤ, pos, negsuc,
}
use binpass.Text.{trim_prefix, cut, trim_space, without, atoi, parse_uint, Signed, take}

pub data Kind : Type 0 where
  totp hotp : Kind

-- `Config`. The period is a Go duration, a 64-bit count of nanoseconds.
pub record Config : Type 0 where
  pub kind : Kind
  pub secret : Bytes
  pub digits : ℕ
  pub period : ℤ
  pub counter : ℕ
  pub algorithm : Bytes
  pub issuer : Bytes
  pub account : Bytes

pub data ParseError : Type 0 where
  bad_url wrong_scheme wrong_kind no_secret bad_secret bad_digits bad_period bad_counter :
      ParseError

-- A parsed URL, with the first value of each query parameter and the empty text for none.
pub record Url : Type 0 where
  pub scheme : Bytes
  pub host : Bytes
  pub path : Bytes
  pub query : Bytes → Bytes

-- What `Parse` uses of net/url, strings and encoding/base32.
pub record Codecs : Type 0 where
  pub parse_url : Bytes → Option Url
  pub to_lower : Bytes → Bytes
  pub to_upper : Bytes → Bytes
  pub decode_base32 : Bytes → Option Bytes

abbrev from_option : {A : Type 0} → ParseError → Option A → Result ParseError A
from_option e none = err e
from_option e (some a) = ok a

kind_of : Bytes → Result ParseError Kind
kind_of s =
    if s == codes "totp" then ok totp else if s == codes "hotp" then ok hotp else err wrong_kind

-- `strings.TrimRight(s, "=")`
trim_equals : Bytes → Bytes
trim_equals [] = []
trim_equals (c ∷ s) = elim (trim_equals s) [
  | [] ↦ if nat_eqb c b'=' then [] else c ∷ []
  | d ∷ t ↦ c ∷ d ∷ t
]

abbrev or_if_empty : Bytes → Bytes → Bytes
or_if_empty [] d = d
or_if_empty (c ∷ s) d = c ∷ s

digits_in_range : Option Signed → Result ParseError ℕ
digits_in_range none = err bad_digits
digits_in_range (some (true, n)) = err bad_digits
digits_in_range (some (false, n)) = if ltb n 6 || ltb 10 n then err bad_digits else ok n

digits_param : Bytes → Result ParseError ℕ
digits_param [] = ok 6
digits_param (c ∷ v) = digits_in_range (atoi (c ∷ v))

-- The 64-bit signed word of a product.
unfoldable pub int64 : ℕ → ℤ
int64 n = let m = n % 2 ^ 64 in if ltb m (2 ^ 63) then pos m else negsuc (2 ^ 64 - m - 1)

abbrev pub nanoseconds : ℕ
nanoseconds = 1_000_000_000

period_in_range : Option Signed → Result ParseError ℤ
period_in_range none = err bad_period
period_in_range (some (true, n)) = err bad_period
period_in_range (some (false, n)) =
    if nat_eqb n 0 then err bad_period else ok (int64 (n * nanoseconds))

unfoldable pub period_param : Bytes → Result ParseError ℤ
unfolding period_in_range
period_param [] = ok (pos (30 * nanoseconds))
period_param (c ∷ v) = period_in_range (atoi (c ∷ v))

counter_param : Bytes → Result ParseError ℕ
counter_param [] = ok 0
counter_param (c ∷ v) = from_option bad_counter (parse_uint (c ∷ v))

-- The issuer and the account of a label.
label_parts : Bytes → Bytes × Bytes
label_parts label =
    let (issuer, account, found) = cut b':' label in
    if found then (issuer, trim_space account) else ([], label)

algorithm_param : (Bytes → Bytes) → Bytes → Bytes
algorithm_param to_upper [] = codes "SHA1"
algorithm_param to_upper (c ∷ v) = to_upper (c ∷ v)

abbrev is_empty : Bytes → Bool
is_empty [] = true
is_empty (_ ∷ _) = false

module _ (lib : Codecs) where
  unfoldable pub parse : Bytes → Result ParseError Config
  unfolding kind_of trim_equals digits_param digits_in_range period_param period_in_range
      counter_param algorithm_param label_parts int64 trim_prefix cut trim_space without atoi
      parse_uint
  parse uri = do
    u ← from_option bad_url (lib.parse_url uri)
    guard (u.scheme == codes "otpauth") wrong_scheme
    kind ← kind_of (lib.to_lower u.host)
    let (issuer, account) = label_parts (trim_prefix u.path (codes "/"))
    let key = lib.to_upper (without b' ' (u.query (codes "secret")))
    guard (not (is_empty key)) no_secret
    secret ← from_option bad_secret (lib.decode_base32 (trim_equals key))
    digits ← digits_param (u.query (codes "digits"))
    period ← period_param (u.query (codes "period"))
    counter ← counter_param (u.query (codes "counter"))
    ok (record {
      kind = kind;
      secret = secret;
      digits = digits;
      period = period;
      counter = counter;
      algorithm = algorithm_param lib.to_upper (u.query (codes "algorithm"));
      issuer = or_if_empty (u.query (codes "issuer")) issuer;
      account = account;
    })
