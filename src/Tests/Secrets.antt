-- ===== src/Tests/Secrets.antt =====
-- Runs on secrets and on one-time passwords.
use binpass.Prelude.{
  if◌then◌else◌, ◌==◌, ◌≢◌, ◌≤◌, ◌<◌, ◌*◌, ◌^◌, [], some, codes, pos, ok, err, ◌≡◌, refl, arith,
  false, bytes_eq,
}
use binpass.Text.{
  ends_in, atoi, digits_value, parse_uint, trim_prefix, cut, trim_space, without, has_prefix,
}
use binpass.Secret.{Secret}
use binpass.Secret.Laws.{IsLine}
use binpass.Otp.{Codecs, Url, bad_period, Config, totp, hotp, parse, int64}
use binpass.Otp.Laws.{parse-bounds}
use binpass.Otp.Code.{Machine, code, division_by_zero}
use binpass.Otp.Code.Laws.{code_period_wraps}
use binpass.Tests.Data.{tool}

abbrev note : Secret
note = record { raw = codes "old\nuser: me" }

new-IsLine : IsLine (codes "new")
unfolding ends_in
new-IsLine = record { no_newline = ground arith; no_return = refl }

user-IsLine : IsLine (codes "u")
unfolding ends_in
user-IsLine = record { no_newline = ground arith; no_return = refl }

abbrev counter_7 : Config
counter_7 = record {
  kind = hotp;
  secret = codes "AA";
  digits = 6;
  period = pos 30_000_000_000;
  counter = 7;
  algorithm = codes "SHA1";
  issuer = [];
  account = codes "a";
}

parsed : parse tool [] ≡ ok counter_7
unfolding parse bytes_eq digits_value atoi parse_uint trim_prefix cut trim_space without has_prefix
parsed = refl

parse-bounds_example : (6 ≤ 6) × (6 ≤ 10) × (7 < 2 ^ 64)
parse-bounds_example = parse-bounds tool [] counter_7 parsed

abbrev machine : Machine
machine = record {
  hmac = λ h key message. message;
  whole_seconds = λ d. d;
  float_to_uint32 = λ n. n;
}

-- A library for a URI with the least such period.
abbrev long_url : Url
long_url = record {
  scheme = codes "otpauth";
  host = codes "totp";
  path = codes "/a";
  query = λ key.
      if key == codes "period"
      then codes "36028797018963968"
      else if key == codes "secret"
      then codes "AA"
      else [];
}

abbrev long_tool : Codecs
long_tool = record tool { parse_url = λ uri. some long_url }

abbrev endless : Config
endless = record counter_7 { kind = totp; period = pos 0; counter = 0 }

reads_period : atoi (codes "36028797018963968") ≡ some (false, 1 * 2 ^ 55)
unfolding atoi digits_value
reads_period = refl

parses_endless : parse long_tool [] ≡ ok endless
unfolding parse bytes_eq digits_value atoi parse_uint trim_prefix cut trim_space without has_prefix
    int64
parses_endless = refl

code_period_wraps_example :
    (parse long_tool [] ≢ err bad_period)
    × ((c : Config)
        → parse long_tool [] ≡ ok c
        → c.kind ≡ totp
        → code machine c (pos 5) ≡ err division_by_zero)
unfolding bytes_eq
code_period_wraps_example =
    code_period_wraps long_tool machine [] long_url 0 5 refl reads_period refl
