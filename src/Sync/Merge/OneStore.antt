-- ===== src/Sync/Merge/OneStore.antt =====
-- pkg/sync/merge.go, with the opener of internal/cli/sync.go: `tryHOTPMerge` opens the path of the
-- local state and the path of the remote one, and both are the same path of the same store.
use binpass.Prelude.{ℕ, true, some, bytes_eq, ◌≡◌, ◌≢◌, arith}
use binpass.Secret.{Secret}
use binpass.Otp.{Codecs, Config}
use binpass.Sync.Version.{diverges}
use binpass.Sync.State.{FileState, Opener}
use binpass.Sync.Hotp.{merged_counter, merged_of, extract_hotp}
use binpass.Sync.Merge.{Sides, opened, try_hotp_merge, with_opener, merge_existing, diverged}
use binpass.Sync.Merge.Decision.{hotp_action}

merged_counter_self :
    (lib : Codecs) (sec : Secret) (c : Config) (n : ℕ)
    → extract_hotp lib sec ≡ some (c, n)
    → merged_counter lib sec sec ≡ some n
unfolding merged_counter merged_of
merged_counter_self lib sec c n h = rw h (ground arith)

-- Two diverging states of one path with different contents, in a store where that path holds an HOTP
-- secret, always count as the same secret: the merge takes the counter of the local file and reports
-- no conflict, whatever the remote content is.
pub merge_existing_one_store :
    (lib : Codecs) (s : Sides) (l r : FileState) (opener : Opener) (sec : Secret) (c : Config)
    (n : ℕ)
    → l.path ≡ r.path
    → opener l.path ≡ some sec
    → extract_hotp lib sec ≡ some (c, n)
    → diverges l.version r.version ≡ true
    → l.hash ≢ r.hash
    → merge_existing lib s l r (some opener) ≡ hotp_action s l r n
unfolding merge_existing diverged with_opener try_hotp_merge opened diverges
merge_existing_one_store lib s l r opener sec c n same opens holds apart differ =
    ground (arith, merged_counter_self lib sec c n holds)
