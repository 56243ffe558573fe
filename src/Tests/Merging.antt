-- ===== src/Tests/Merging.antt =====
-- Runs of a merge.
use binpass.Prelude.{[], ◌∷◌, none, some, bytes_eq, pos, ◌≡◌, refl, arith, codes, true}
use binpass.Prelude.Dict.{lookup}
use binpass.Secret.{lines, otp_all, extract_otp}
use binpass.Otp.{Config, hotp, parse}
use binpass.Text.{
  digits_value, atoi, parse_uint, trim_prefix, cut, trim_space, without, has_prefix, split,
  trim_last,
}
use binpass.Sync.Version.{diverges, equal, dominates}
use binpass.Sync.State.{Opener}
use binpass.Sync.Hotp.{extract_hotp}
use binpass.Sync.Merge.{merge, merge_file, Sides}
use binpass.Sync.Merge.Safety.{IsSafe, merge_file-IsSafe}
use binpass.Sync.Merge.Recorded.{Covers, merge_file-Covers}
use binpass.Sync.Merge.Symmetry.{mirrored, merge_file_mirror}
use binpass.Sync.Merge.Plan.{IsSorted, find_action, planned, merge_lem}
use binpass.Sync.Merge.Deterministic.{merge-SameFiles}
use binpass.Tests.Data.{tool, mail, known, edited, foreign, base}

merge_file-IsSafe_example :
    IsSafe tool none
      (merge_file tool mail (some edited) (some foreign) (some known) none)
      (some edited)
      (some foreign)
      (some known)
merge_file-IsSafe_example =
    merge_file-IsSafe tool mail (some edited) (some foreign) (some known) none

merge_file-Covers_example :
    Covers
      (merge_file tool mail (some edited) (some foreign) (some known) none).merged_version
      (some edited)
      (some foreign)
unfolding lookup
merge_file-Covers_example =
    merge_file-Covers tool mail (some edited) (some foreign) (some known) none (ground arith)

merge_file_mirror_example :
    (merge_file tool mail (some known) (some edited) (some known) none).kind
    ≡ mirrored (merge_file tool mail (some edited) (some known) (some known) none).kind
unfolding lookup
merge_file_mirror_example =
    merge_file_mirror tool mail (some edited) (some known) (some known) (refl, tt) (refl, tt)

merge_lem_example :
    IsSorted (merge tool ((mail, edited) ∷ []) [] base none)
    × ((p : _)
        → find_action p (merge tool ((mail, edited) ∷ []) [] base none)
          ≡ planned tool p (lookup p ((mail, edited) ∷ [])) (lookup p []) (lookup p base) none)
merge_lem_example = merge_lem tool ((mail, edited) ∷ []) [] base none

merge-SameFiles_example :
    merge tool ((mail, edited) ∷ (codes "b", known) ∷ []) [] base none
    ≡ merge tool ((codes "b", known) ∷ (mail, edited) ∷ []) [] base none
unfolding lookup
merge-SameFiles_example =
    merge-SameFiles tool none ((mail, edited) ∷ (codes "b", known) ∷ [])
      ((codes "b", known) ∷ (mail, edited) ∷ []) [] [] base base (λ p. ground arith) (λ p. refl)
      (λ p. refl)

abbrev store : Opener
store p = some (record { raw = codes "w\notpauth://x\n" })

abbrev sides : Sides
sides = record { path = mail; local = some edited; remote = some foreign; base = some known }

abbrev counter_7 : Config
counter_7 = record {
  kind = hotp;
  secret = codes "AA";
  digits = 6;
  period = pos 30_000_000_000;
  counter = 7;
  algorithm = codes "SHA1";
  issuer = [];
  account = codes "a";
}

holds_counter_7 :
    extract_hotp tool (record { raw = codes "w\notpauth://x\n" }) ≡ some (counter_7, 7)
unfolding extract_hotp parse otp_all lines extract_otp bytes_eq digits_value atoi parse_uint
    trim_prefix cut trim_space without has_prefix split trim_last
holds_counter_7 = refl

apart : diverges edited.version foreign.version ≡ true
unfolding diverges equal dominates lookup bytes_eq
apart = refl
