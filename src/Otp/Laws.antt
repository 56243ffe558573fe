-- ===== src/Otp/Laws.antt =====
-- pkg/otp/otp.go: the bounds that `Parse` keeps.
use binpass.Prelude.{
  ℕ, ◌^◌, ◌≤◌, ◌<◌, true, false, [], ◌∷◌, Option, none, some, Bytes, codes, ◌≡◌, arith, ok,
  >>=-eq-ok, Option-cases, inl, inr, guard, not, ◌==◌, bytes_eq,
}
use binpass.Text.{without, parse_uint, atoi, Signed}
use binpass.Otp.{
  Codecs, Config, parse, digits_param, digits_in_range, counter_param, from_option, period_param,
  kind_of, is_empty, trim_equals, wrong_scheme, no_secret, bad_secret,
}

digits_in_range-bounds : (s : Option Signed) (n : ℕ) → digits_in_range s ≡ ok n → (6 ≤ n) × (n ≤ 10)
unfolding digits_in_range
digits_in_range-bounds none n h = ground arith
digits_in_range-bounds (some (true, m)) n h = ground arith
digits_in_range-bounds (some (false, m)) n h = ground arith

digits_param-bounds : (v : Bytes) (n : ℕ) → digits_param v ≡ ok n → (6 ≤ n) × (n ≤ 10)
unfolding digits_param
digits_param-bounds [] n h = ground arith
digits_param-bounds (c ∷ v) n h = digits_in_range-bounds (atoi (c ∷ v)) n h

parse_uint-bound : (v : Bytes) (n : ℕ) → parse_uint v ≡ some n → n < 2 ^ 64
unfolding parse_uint
parse_uint-bound [] n h = ground arith
parse_uint-bound (c ∷ v) n h = ground (arith, h)

counter_param-bound : (v : Bytes) (n : ℕ) → counter_param v ≡ ok n → n < 2 ^ 64
unfolding counter_param
counter_param-bound [] n h = ground arith
counter_param-bound (c ∷ v) n h = elim (Option-cases (parse_uint (c ∷ v))) [
  | inl bad ↦ ground arith
  | inr (m, e) ↦ ground (arith, parse_uint-bound (c ∷ v) m e)
]

-- A configuration that is parsed has 6 to 10 digits and a counter of 64 bits.
pub parse-bounds :
    (lib : Codecs) (uri : Bytes) (c : Config)
    → parse lib uri ≡ ok c
    → (6 ≤ c.digits) × (c.digits ≤ 10) × (c.counter < 2 ^ 64)
unfolding parse
parse-bounds lib uri c h =
    let (u, _, h1) = >>=-eq-ok (from_option _ (lib.parse_url uri)) _ h in
    let (_, _, h2) = >>=-eq-ok (guard (u.scheme == codes "otpauth") wrong_scheme) _ h1 in
    let (kind, _, h3) = >>=-eq-ok (kind_of (lib.to_lower u.host)) _ h2 in
    let key = lib.to_upper (without b' ' (u.query (codes "secret"))) in
    let (_, _, h4) = >>=-eq-ok (guard (not (is_empty key)) no_secret) _ h3 in
    let (secret, _, h5) =
      >>=-eq-ok (from_option bad_secret (lib.decode_base32 (trim_equals key))) _ h4 in
    let (digits, in_range, h6) = >>=-eq-ok (digits_param (u.query (codes "digits"))) _ h5 in
    let (period, _, h7) = >>=-eq-ok (period_param (u.query (codes "period"))) _ h6 in
    let (counter, fits, h8) = >>=-eq-ok (counter_param (u.query (codes "counter"))) _ h7 in
    let (low, high) = digits_param-bounds (u.query (codes "digits")) digits in_range in
    let word = counter_param-bound (u.query (codes "counter")) counter fits in
    ground (arith, h8, low, high, word)
