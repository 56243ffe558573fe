-- ===== src/Tests/Audits.antt =====
-- Runs of the audit and of the password generator.
use binpass.Prelude.{
  ℕ, ◌+◌, ◌<◌, true, List, [], ◌∷◌, ◌++◌, none, some, codes, bytes_eq, nat_eq, ◌==◌, length,
  contains, ok, err, pos, negsuc, ◌≡◌, refl,
}
use binpass.Prelude.Dict.{lookup, insert}
use binpass.Secret.{Secret, parse}
use binpass.Audit.Expiry.{Clock}
use binpass.Audit.{Checks, Options, Decrypted, report_of}
use binpass.Pwgen.{Runes, expand_character_set, expand_loop}
use binpass.Pwgen.Set.{IsNodup, expand_character_set_lem}

abbrev clock : Clock
clock = record {
  parse_rfc3339 = λ val. none;
  parse_day = λ val. none;
  parse_european = λ val. none;
  add_days = λ now days. elim days [ pos n ↦ now + n | negsuc n ↦ 0 ];
}

abbrev lib : Checks
lib = record {
  leaked = λ pw. ok (pw == codes "a");
  score = λ pw. length pw;
  digest = λ pw. pw;
  path_match = λ p name. some true;
  clock = clock;
  equal_fold = λ a b. a == b;
}

abbrev all_checks : Options
all_checks = record { hibp = true; strength = true; reuse = true; expired = true; only = [] }

-- Two entries share a password, and one cannot be decrypted.
abbrev decrypted : List Decrypted
decrypted =
    (codes "x", ok (parse (codes "abc")))
    ∷ (codes "y", err (codes "locked"))
    ∷ (codes "z", ok (parse (codes "abc")))
    ∷ (codes "w", ok (parse (codes "long")))
    ∷ []

one_clean : (report_of lib all_checks 5 decrypted).stats.clean ≡ pos 1
unfolding report_of bytes_eq insert lookup
one_clean = refl

abbrev ninety : Secret
ninety = parse (codes "pw" ++ b'\n' ∷ codes "expire: 90d")

-- A clock on which days lead back.
abbrev wrapping : Clock
wrapping = record clock { add_days = λ now n. 3 }

-- A class between two runes.
abbrev spec : Runes
spec = codes "1[:digit:]a"

expand_character_set_lem_example :
    (text : Runes) × (set : Runes) × ((fuel : ℕ)
      → length spec < fuel
      → expand_loop fuel spec ≡ some text)
    × (expand_character_set spec ≡ some set)
    × IsNodup set
    × ((c : ℕ) → contains set c ≡ contains text c)
expand_character_set_lem_example = expand_character_set_lem spec

digits_once : expand_character_set spec ≡ some (codes "1023456789a")
unfolding expand_character_set bytes_eq nat_eq lookup
digits_once = refl
