-- ===== src/Otp/Code/Laws.antt =====
-- pkg/otp/otp.go: the division in `Code`.
use binpass.Prelude.{
  none, ℕ, suc, ◌*◌, ◌^◌, false, [], ◌∷◌, some, Bytes, Option, ok_inj, codes, ◌≡◌, ◌≢◌, sym, refl,
  ap, ◌∙◌, arith, Result, ok, err, ◌>>=◌, >>=-eq-ok, guard, not, ◌==◌, bytes_eq, ℤ, pos,
}
use binpass.Text.{without, parse_uint, Signed, atoi}
use binpass.Otp.{
  Codecs, Url, bad_period, wrong_scheme, no_secret, bad_secret, kind_of, is_empty, trim_equals,
  digits_param, digits_in_range, bad_counter, counter_param, from_option, parse, ParseError, Config,
  totp, int64, nanoseconds, period_param, period_in_range,
}
use binpass.Otp.Code.{Machine, division_by_zero, code, code_of, code_at, steps}

wraps : (k : ℕ) → int64 (k * 2 ^ 55 * nanoseconds) ≡ pos 0
unfolding int64
wraps k = ground arith

in_range_wraps : (k : ℕ) → period_in_range (some (false, suc k * 2 ^ 55)) ≡ ok (pos 0)
unfolding period_in_range
in_range_wraps k = ground (arith, wraps (suc k))

no_number : {s : Signed} → atoi [] ≢ some s
unfolding atoi
no_number h = cc

period_wraps :
    (v : Bytes) (k : ℕ) → atoi v ≡ some (false, suc k * 2 ^ 55) → period_param v ≡ ok (pos 0)
unfolding period_param
period_wraps [] k h = absurd (no_number h)
period_wraps (c ∷ v) k h = ap period_in_range h ∙ in_range_wraps k

err_inj : {A : Type 0} {x y : ParseError} → ◌≡◌ {A = Result ParseError A} (err x) (err y) → x ≡ y
err_inj h = cc

from_option_other : {A : Type 0} (x e : ParseError) (o : Option A) → x ≢ e → from_option x o ≢ err e
from_option_other x e none ne h = ne (err_inj h)
from_option_other x e (some a) ne h = cc

digits_param_other : (v : Bytes) → digits_param v ≢ err bad_period
unfolding digits_param digits_in_range
digits_param_other [] h = cc
digits_param_other (c ∷ v) h = ground arith

counter_param_other : (v : Bytes) → counter_param v ≢ err bad_period
unfolding counter_param
counter_param_other [] h = cc
counter_param_other (c ∷ v) h =
    from_option_other bad_counter bad_period (parse_uint (c ∷ v)) (λ e. cc) h

-- A chain fails with an error only where one of its parts does.
bind_other :
    {A B : Type 0} (e : ParseError) (m : Result ParseError A) (k : A → Result ParseError B)
    → m ≢ err e
    → ((a : A) → k a ≢ err e)
    → (m >>= k) ≢ err e
bind_other e (ok a) k first rest h = rest a h
bind_other e (err x) k first rest h = first (ap err (err_inj h))

-- A parse fails for the period only if the period parameter is refused, and keeps the period that
-- is read.
parse-period :
    (lib : Codecs) (uri : Bytes) (u : Url) (p : ℤ)
    → lib.parse_url uri ≡ some u
    → period_param (u.query (codes "period")) ≡ ok p
    → (parse lib uri ≢ err bad_period) × ((c : Config) → parse lib uri ≡ ok c → c.period ≡ p)
unfolding parse
parse-period lib uri u p at_url reads = rw at_url (
  bind_other bad_period (guard (u.scheme == codes "otpauth") wrong_scheme) _ (ground arith) (λ _.
      bind_other bad_period (kind_of (lib.to_lower u.host)) _ (unfold kind_of in ground arith)
        (λ kind.
          bind_other bad_period
            (guard (not (is_empty (lib.to_upper (without b' ' (u.query (codes "secret"))))))
              no_secret)
            _ (ground arith)
            (λ _.
              bind_other bad_period
                (from_option bad_secret (
                  lib.decode_base32
                    (trim_equals (lib.to_upper (without b' ' (u.query (codes "secret")))))))
                _ (from_option_other bad_secret bad_period _ (λ e. cc))
                (λ secret.
                  bind_other bad_period (digits_param (u.query (codes "digits"))) _
                    (digits_param_other (u.query (codes "digits")))
                    (λ digits. rw reads (
                      bind_other bad_period (counter_param (u.query (codes "counter"))) _
                        (counter_param_other (u.query (codes "counter"))) (λ counter h. cc))))))),
  λ c h.
      let (_, _, h2) = >>=-eq-ok (guard (u.scheme == codes "otpauth") wrong_scheme) _ h in
      let (kind, _, h3) = >>=-eq-ok (kind_of (lib.to_lower u.host)) _ h2 in
      let key = lib.to_upper (without b' ' (u.query (codes "secret"))) in
      let (_, _, h4) = >>=-eq-ok (guard (not (is_empty key)) no_secret) _ h3 in
      let (secret, _, h5) =
        >>=-eq-ok (from_option bad_secret (lib.decode_base32 (trim_equals key))) _ h4 in
      let (digits, _, h6) = >>=-eq-ok (digits_param (u.query (codes "digits"))) _ h5 in
      let (period, got, h7) = >>=-eq-ok (period_param (u.query (codes "period"))) _ h6 in
      let (counter, _, h8) = >>=-eq-ok (counter_param (u.query (codes "counter"))) _ h7 in
      sym (ap (λ k. k.period) (ok_inj h8)) ∙ ok_inj (sym got ∙ reads),
)

-- A period of a positive multiple of 2 ^ 55 seconds is never a reason to refuse a URI, and of a
-- time-based configuration that is parsed from it the code of every moment from the epoch on is a
-- division by zero, where no time at all has no seconds.
pub code_period_wraps :
    (lib : Codecs) (m : Machine) (uri : Bytes) (u : Url) (k seconds : ℕ)
    → lib.parse_url uri ≡ some u
    → atoi (u.query (codes "period")) ≡ some (false, suc k * 2 ^ 55)
    → m.whole_seconds (pos 0) ≡ pos 0
    → (parse lib uri ≢ err bad_period)
      × ((c : Config)
          → parse lib uri ≡ ok c
          → c.kind ≡ totp
          → code m c (pos seconds) ≡ err division_by_zero)
unfolding code code_of steps
code_period_wraps lib m uri u k seconds at_url reads none_left =
    let (taken, kept) =
      parse-period lib uri u (pos 0) at_url (period_wraps (u.query (codes "period")) k reads) in
    (
      taken,
      λ c parsed timed. rw timed (
          ap (λ p. steps seconds (m.whole_seconds p) >>= code_at m c) (kept c parsed)
          ∙ rw none_left refl),
    )
