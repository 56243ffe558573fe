-- ===== src/Otp/Code.antt =====
-- pkg/otp/otp.go: the code of a counter and of a moment.
pub mod Laws
use binpass.Prelude.{
  ℕ, zero, suc, ◌+◌, ◌-◌, ◌*◌, ◌/◌, ◌%◌, ◌^◌, ◌||◌, [], ◌∷◌, Bytes, if◌then◌else◌, length, codes,
  ◌==◌, bytes_eq, Result, ok, err, ◌>>=◌, ℤ, pos, negsuc,
}
use binpass.Text.{decimal}
use binpass.Otp.{Kind, totp, hotp, Config}

-- The hashes that `hash` chooses from.
pub data Hash : Type 0 where
  sha1 sha256 sha512 : Hash

-- An error of `Code`, or its panic on a step of 0.
pub data CodeError : Type 0 where
  before_epoch bad_algorithm division_by_zero : CodeError

-- What `Code` uses of crypto/hmac and of the conversions from floats: the MAC of a message under a
-- key, `int64(d.Seconds())` and `uint32(f)`.
pub record Machine : Type 0 where
  pub hmac : Hash → Bytes → Bytes → Bytes
  pub whole_seconds : ℤ → ℤ
  pub float_to_uint32 : ℕ → ℕ

unfoldable pub hash_of : Bytes → Result CodeError Hash
hash_of a =
    if a == codes "SHA1" || a == codes ""
    then ok sha1
    else if a == codes "SHA256"
    then ok sha256
    else if a == codes "SHA512"
    then ok sha512
    else err bad_algorithm

-- `binary.BigEndian.PutUint64`: the low `n` bytes, the greatest first.
unfoldable pub big_endian : ℕ → ℕ → Bytes
big_endian zero x = []
big_endian (suc n) x = (x / 256 ^ n % 256) ∷ big_endian n x

-- `s[i]`, read within the bounds only.
unfoldable pub byte_at : Bytes → ℕ → ℕ
byte_at [] i = 0
byte_at (c ∷ s) zero = c
byte_at (c ∷ s) (suc i) = byte_at s i

-- The last byte's low half.
unfoldable pub truncation_offset : Bytes → ℕ
unfolding byte_at
truncation_offset sum = byte_at sum (length sum - 1) % 16

-- `binary.BigEndian.Uint32(sum[offset:offset+4]) & 0x7fffffff`
unfoldable pub truncated : Bytes → ℕ
unfolding byte_at truncation_offset
truncated sum =
    let o = truncation_offset sum in
    (byte_at sum o * 2 ^ 24
      + byte_at sum (o + 1) * 2 ^ 16
      + byte_at sum (o + 2) * 2 ^ 8
      + byte_at sum (o + 3))
    % 2 ^ 31

-- Zeros in front of a text, up to a width.
unfoldable pub zeros_onto : ℕ → Bytes → Bytes
zeros_onto zero s = s
zeros_onto (suc n) s = b'0' ∷ zeros_onto n s

-- `%0*d`
unfoldable pub padded : ℕ → ℕ → Bytes
unfolding zeros_onto decimal
padded width n = zeros_onto (width - length (decimal n)) (decimal n)

-- `int64` division by the step, and the conversion of the quotient to `uint64`.
unfoldable pub steps : ℕ → ℤ → Result CodeError ℕ
steps seconds (pos zero) = err division_by_zero
steps seconds (pos (suc s)) = ok (seconds / suc s)
steps seconds (negsuc s) = ok ((2 ^ 64 - seconds / suc s) % 2 ^ 64)

module _ (m : Machine) where
  -- `codeAt`
  unfoldable pub code_at : Config → ℕ → Result CodeError Bytes
  unfolding hash_of big_endian truncated padded
  code_at c counter = do
    h ← hash_of c.algorithm
    let value = truncated (m.hmac h c.secret (big_endian 8 counter))
    ok (padded c.digits (value % m.float_to_uint32 (10 ^ c.digits)))

  code_of : Kind → Config → ℤ → Result CodeError Bytes
  code_of hotp c at = code_at c c.counter
  code_of totp c (negsuc _) = err before_epoch
  code_of totp c (pos seconds) = steps seconds (m.whole_seconds c.period) >>= code_at c

  -- `Code`, at a Unix time.
  unfoldable pub code : Config → ℤ → Result CodeError Bytes
  unfolding code_of code_at steps
  code c at = code_of c.kind c at

-- `Next`
unfoldable pub next : Config → Config
next c = record c { counter = (c.counter + 1) % 2 ^ 64 }
