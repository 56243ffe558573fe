-- ===== src/Importer/Write.antt =====
-- pkg/importer/export.go: what an import would write, and what it writes.
pub mod Planned
pub mod Kept
use binpass.Prelude.{
  ℕ, suc, Bool, true, false, not, ◌&&◌, List, [], ◌∷◌, ◌++◌, Bytes, nat_eqb, length, contains,
  bytes_eq, if◌then◌else◌, Result, ok, err,
}
use binpass.Prelude.Dict.{Dict, lookup, insert}
use binpass.Secret.{create}
use binpass.Storage.{Disk}
use binpass.Store.{Backends, StoreError, exists, set}
use binpass.Store.Listing.{list_names}
use binpass.Importer.{
  Imported, Attachment, PathError, invalid, out_of_range, to_secret, normalize_path, store_path,
  attachment_store_path, numbered, times,
}

pub record PlanEntry : Type 0 where
  pub planned_path : Bytes
  pub planned_title : Bytes
  pub has_password : Bool
  pub has_totp : Bool
  pub attachment_count : ℕ
  pub conflict : Bool

-- A path that cannot be used is planned as the one of the title and the group.
unfoldable pub plan_path : Imported → Result PathError Bytes → Bytes
plan_path e (ok p) = p
plan_path e (err x) = normalize_path e.group e.title

abbrev filled : Bytes → Bool
filled [] = false
filled (c ∷ s) = true

abbrev planned : List Bytes → Imported → Bytes → PlanEntry
planned existing e p = record {
  planned_path = p;
  planned_title = e.title;
  has_password = filled e.main_password;
  has_totp = filled e.totp_uri;
  attachment_count = length e.attachments;
  conflict = contains existing p;
}

-- One more entry under a path.
abbrev pub seen_again : Bytes → Dict Bytes ℕ → Dict Bytes ℕ
seen_again p seen = insert p (suc (times (lookup p seen))) seen

-- The loop of `Plan`
unfoldable pub plan_from : List Bytes → Dict Bytes ℕ → List Imported → List PlanEntry
unfolding plan_path store_path numbered
plan_from existing seen [] = []
plan_from existing seen (e ∷ es) =
    let p = plan_path e (store_path e) in
    planned existing e (numbered p (times (lookup p seen)))
    ∷ plan_from existing (seen_again p seen) es

abbrev or_no_names : Result StoreError (List Bytes) → List Bytes
or_no_names (ok names) = names
or_no_names (err x) = []

-- `Plan`
unfoldable pub plan : Backends → List Imported → Disk → List PlanEntry
unfolding plan_from list_names
plan s es d = plan_from (or_no_names (list_names s [] d)) [] es

pub data ImportError : Type 0 where
  unusable_path : (title : Bytes) → PathError → ImportError
  already_there : (title path : Bytes) → ImportError
  write_failed : (path : Bytes) → StoreError → ImportError
  attachment_unusable : (i : ℕ) (title : Bytes) → PathError → ImportError
  attachment_failed : (path : Bytes) → StoreError → ImportError

-- The paths that are reported as written, the errors, and the files.
pub record Outcome : Type 0 where
  pub written : List Bytes
  pub errors : List ImportError
  pub disk : Disk

abbrev pub nothing : Disk → Outcome
nothing d = record { written = []; errors = []; disk = d }

abbrev failed : ImportError → Disk → Outcome
failed x d = record { written = []; errors = x ∷ []; disk = d }

abbrev wrote : Bytes → Disk → Outcome
wrote p d = record { written = p ∷ []; errors = []; disk = d }

-- What is done on the files that are left.
abbrev pub and_then : Outcome → (Disk → Outcome) → Outcome
and_then o k = record {
  written = o.written ++ (k o.disk).written;
  errors = o.errors ++ (k o.disk).errors;
  disk = (k o.disk).disk;
}

-- An attachment is reported as written even where the write has failed.
unfoldable pub attach : Bytes → Result StoreError Disk → Disk → Outcome
attach p (ok d') d = wrote p d'
attach p (err x) d = record { written = p ∷ []; errors = attachment_failed p x ∷ []; disk = d }

-- One round of the loop over the attachments.
unfoldable pub attach_at :
    Backends → (Bytes → Bytes) → Imported → ℕ → Attachment → Result PathError Bytes → Disk → Outcome
unfolding attach
attach_at s encode e i a (err x) d = failed (attachment_unusable i e.title x) d
attach_at s encode e i a (ok p) d = attach p (set s p (create (encode a.blob) []) d) d

-- The loop over the attachments; `encode` is the encoding of base64.
unfoldable pub write_attachments :
    Backends → (Bytes → Bytes) → Imported → ℕ → List Attachment → Disk → Outcome
unfolding attach_at attachment_store_path
write_attachments s encode e i [] d = nothing d
write_attachments s encode e i (a ∷ rest) d =
    and_then (attach_at s encode e i a (attachment_store_path e i) d)
      (write_attachments s encode e (suc i) rest)

-- The rest of a round behind the write of the entry.
unfoldable pub with_attachments :
    Backends → (Bytes → Bytes) → Imported → Bytes → Result StoreError Disk → Disk → Outcome
unfolding write_attachments
with_attachments s encode e p (err x) d = failed (write_failed p x) d
with_attachments s encode e p (ok d') d =
    and_then (wrote p d') (write_attachments s encode e 0 e.attachments)

-- The round of an entry under its path.
unfoldable pub write_entry : Backends → (Bytes → Bytes) → Bool → Imported → Bytes → Disk → Outcome
unfolding with_attachments exists set to_secret
write_entry s encode force e p d =
    if exists s p d && not force
    then failed (already_there e.title p) d
    else with_attachments s encode e p (set s p (to_secret e) d) d

unfoldable pub write_round :
    Backends
    → (Bytes → Bytes)
    → Bool
    → Dict Bytes ℕ
    → Imported
    → Result PathError Bytes
    → Disk
    → Outcome
unfolding write_entry numbered
write_round s encode force seen e (err x) d = failed (unusable_path e.title x) d
write_round s encode force seen e (ok p) d =
    write_entry s encode force e (numbered p (times (lookup p seen))) d

-- An entry that has no path is not counted.
abbrev pub counted : Result PathError Bytes → Dict Bytes ℕ → Dict Bytes ℕ
counted (err x) seen = seen
counted (ok p) seen = seen_again p seen

-- The loop of `WriteEntries`
unfoldable pub write_from :
    Backends → (Bytes → Bytes) → Bool → Dict Bytes ℕ → List Imported → Disk → Outcome
unfolding write_round store_path
write_from s encode force seen [] d = nothing d
write_from s encode force seen (e ∷ es) d =
    and_then (write_round s encode force seen e (store_path e) d)
      (write_from s encode force (counted (store_path e) seen) es)

-- `WriteEntries`
unfoldable pub write_entries : Backends → (Bytes → Bytes) → List Imported → Bool → Disk → Outcome
unfolding write_from
write_entries s encode es force d = write_from s encode force [] es d

abbrev pub named : Result PathError Bytes → List Bytes → List Bytes
named (err x) rest = rest
named (ok p) rest = p ∷ rest

-- The names of the attachments of an entry, from one on.
unfoldable pub attachment_names : Imported → ℕ → List Attachment → List Bytes
unfolding attachment_store_path
attachment_names e i [] = []
attachment_names e i (a ∷ rest) =
    named (attachment_store_path e i) (attachment_names e (suc i) rest)
