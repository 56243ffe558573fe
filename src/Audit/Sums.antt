-- ===== src/Audit/Sums.antt =====
-- pkg/audit/audit.go: the counters of a report add up.
use binpass.Prelude.{◌≤◌, List, [], ◌∷◌, Bytes, bytes_eq, length, ok, err, ◌≡◌}
use binpass.Secret.{Secret}
use binpass.Audit.Count.{count}
use binpass.Audit.{Decrypted, Progress}
use binpass.Audit.Reuse.{names_of, Noted}

-- What the loop keeps, of the names of the entries that it has audited.
record Kept (audited : List Bytes) (p : Progress) : Type 0 where
  counted : p.audited ≡ length audited
  within : (x : Bytes) → count x (names_of p.entries) ≤ count x audited
  noted : Noted audited p.by_digest

-- The names of the entries that were decrypted, in front of others.
audited_names : List Decrypted → List Bytes → List Bytes
audited_names [] names = names
audited_names ((name, ok _) ∷ ds) names = audited_names ds (name ∷ names)
audited_names ((name, err _) ∷ ds) names = audited_names ds names
