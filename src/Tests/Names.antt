-- ===== src/Tests/Names.antt =====
-- Runs of the checks on names.
use binpass.Prelude.{[], ◌∷◌, codes, ◌≡◌, ◌≢◌, refl, true, false, bytes_eq}
use binpass.Text.{has_prefix, split}
use binpass.Paths.{check_path, clean, escapes, with_slashes}
use binpass.Paths.Laws.{stays, check_path-stays}

check_path-stays_example :
    (stays 0 (split b'/' (codes "a/b")) ≡ true)
    × (stays 0 (split b'/' (with_slashes (codes "a/b"))) ≡ true)
    × (codes "a/b" ≢ [])
    × (has_prefix (codes "a/b") (b'/' ∷ []) ≡ false)
    × (has_prefix (codes "a/b") (b'\\' ∷ []) ≡ false)
unfolding check_path clean escapes with_slashes split has_prefix bytes_eq
check_path-stays_example = check_path-stays (codes "a/b") refl
