-- ===== src/Sync/Hotp.antt =====
-- pkg/sync/merge.go: reading HOTP counters out of two secrets.
use binpass.Prelude.{
  ℕ, Bool, true, false, List, [], ◌∷◌, ◌++◌, Option, none, some, Bytes, codes, max, ◌==◌, bytes_eq,
  if◌then◌else◌, ok, err,
}
use binpass.Text.{decimal}
use binpass.Secret.{Secret, otp_all, replace_line_containing}
use binpass.Otp.{Codecs, Config, Kind, hotp, totp, parse}

abbrev is_hotp : Kind → Bool
is_hotp hotp = true
is_hotp totp = false

module _ (lib : Codecs) where
  unfoldable pub first_hotp : List Bytes → Option (Config × ℕ)
  first_hotp [] = none
  first_hotp (uri ∷ uris) =
      let rest = first_hotp uris in
      elim (parse lib uri) [
        | err _ ↦ rest
        | ok cfg ↦ if is_hotp cfg.kind then some (cfg, cfg.counter) else rest
      ]

  unfoldable pub extract_hotp : Secret → Option (Config × ℕ)
  unfolding first_hotp
  extract_hotp sec = first_hotp (otp_all sec)

abbrev pub counter_param : ℕ → Bytes
counter_param n = codes "counter=" ++ decimal n

unfoldable pub normalise_counter : Secret → Config → ℕ → Bytes
normalise_counter sec cfg target =
    (replace_line_containing sec (counter_param cfg.counter) (counter_param target)).raw

-- The part of `tryHOTPMerge` behind the two `Open` calls: the winning counter, if the secrets
-- differ in nothing else.
module _ (lib : Codecs) where
  unfoldable pub merged_of : Secret → Secret → Option (Config × ℕ) → Option (Config × ℕ) → Option ℕ
  merged_of l r (some (lc, ln)) (some (rc, rn)) =
      if normalise_counter l lc rn == normalise_counter r rc rn then some (max ln rn) else none
  merged_of l r _ _ = none

  unfoldable pub merged_counter : Secret → Secret → Option ℕ
  unfolding merged_of
  merged_counter l r = merged_of l r (extract_hotp lib l) (extract_hotp lib r)
