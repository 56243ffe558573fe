-- ===== src/Tests/Saving.antt =====
-- Runs of a scan and of the state database, over buckets in memory.
use binpass.Prelude.{
  [], ◌∷◌, none, some, Bytes, bytes_eq, nat_eq, codes, ◌≡◌, false, refl, sym, ap, ◌∙◌, true, List,
}
use binpass.Prelude.Dict.{
  Dict, keys, lookup, insert, erase, lookup-insert, lookup-erase, NodupKeys, insert-NodupKeys,
  erase-NodupKeys,
}
use binpass.Sync.State.{FilePath, FileState}
use binpass.Sync.Scan.{DiskFile, Entries, file, entry, end, scan, first_version}
use binpass.Sync.StateDb.{Bucket, Json, WalEntry, replay_wal, wal_entries}
use binpass.Sync.StateDb.Laws.{IsBucket}
use binpass.Sync.StateDb.Replay.{final, replay_wal_lem}
use binpass.Text.{has_prefix}
use binpass.Sync.State.{no_digest}
use binpass.Sync.Fsck.{fsck, scan_disk, path_extension}
use binpass.Sync.Fsck.Laws.{Agrees, fsck_clean}
use binpass.Tests.Data.{laptop, mail, known, base}

abbrev Map : Type 0
Map = (d : Dict Bytes Bytes) × NodupKeys d

abbrev bucket : Bucket
bucket = record {
  State = Map;
  get = λ s k. lookup k s.0;
  put = λ s k v. some (insert k v s.0, insert-NodupKeys k v s.0 s.1);
  delete = λ s k. some (erase k s.0, erase-NodupKeys k s.0 s.1);
  entries = λ s. s.0;
  accepts = λ k v. true;
  visited = λ test s. keys s.0;
}

some_injective : {A : Type 0} {a b : A} → some a ≡ some b → a ≡ b
some_injective h = cc

bucket-IsBucket : IsBucket bucket
bucket-IsBucket = record {
  entries-get = λ s k. refl;
  entries-Nodup = λ s. s.1;
  put-accepted = λ s k v fits. ((insert k v s.0, insert-NodupKeys k v s.0 s.1), refl);
  put-get = λ s t k v j e.
      ap (λ (m : Map). lookup j m.0) (sym (some_injective e)) ∙ lookup-insert j k v s.0;
  delete-some = λ s k. ((erase k s.0, erase-NodupKeys k s.0 s.1), refl);
  delete-get =
      λ s t k j e. ap (λ (m : Map). lookup j m.0) (sym (some_injective e)) ∙ lookup-erase j k s.0;
}

abbrev set_mail : WalEntry
set_mail = record { op = codes "set"; path = mail; state = some known }

-- Each text encodes the one known file, and each entry sets it.
abbrev json : Json
json = record {
  marshal = λ f. some (codes "known");
  unmarshal = λ s. some known;
  marshal_entry = λ e. some (codes "set");
  unmarshal_entry = λ s. some set_mail;
}

abbrev no_entries : Map
no_entries = ([], tt)

one_entry : (k v : Bytes) → NodupKeys ((k, v) ∷ [])
unfolding lookup
one_entry k v = (refl, tt)

abbrev pending : Map
pending = ((codes "0", codes "set") ∷ [], one_entry (codes "0") (codes "set"))

decoded : wal_entries bucket json pending.0 ≡ some (set_mail ∷ [])
unfolding wal_entries
decoded = refl

replay_wal_lem_example :
    (t v : Map) × (replay_wal bucket json no_entries pending ≡ some (t, v))
    × ((j : FilePath) → lookup j t.0 ≡ final bucket json j (set_mail ∷ []) (lookup j []))
replay_wal_lem_example =
    replay_wal_lem bucket json bucket-IsBucket no_entries pending set_mail [] decoded
      ((codes "known", refl, refl), tt)

abbrev on_disk : DiskFile
on_disk = record { rel = mail; size = 1; mod_time = 2; content = some (codes "x") }

abbrev touched : DiskFile
touched = record { rel = mail; size = 2; mod_time = 3; content = some (codes "y") }

in_base : lookup mail base ≡ some known
unfolding lookup bytes_eq
in_base = refl

abbrev tree : Entries
tree = entry mail (file 2 3 (some (codes "y"))) (entry (codes ".git") (file 1 1 none) end)

abbrev exts : List Bytes
exts = codes ".gpg" ∷ []

abbrev found : FileState
found = record {
  path = mail;
  hash = codes "y";
  size = 2;
  mod_time = 3;
  version = first_version laptop;
  remote_rev = [];
  device = laptop;
}

scan_succeeds : scan (λ s. s) tree [] laptop exts ≡ some ((mail, found) ∷ [])
unfolding scan lookup insert bytes_eq
scan_succeeds = refl

abbrev store_tree : Entries
store_tree = entry mail (file 1 3 (some (codes "x"))) (entry (codes ".gpg-id") (file 1 1 none) end)

reports_nothing : fsck none true false (scan_disk (λ s. s) [] store_tree []) base ≡ []
unfolding fsck scan_disk path_extension lookup insert bytes_eq nat_eq no_digest has_prefix
reports_nothing = refl

fsck_clean_example : Agrees (lookup mail (scan_disk (λ s. s) [] store_tree [])) (lookup mail base)
fsck_clean_example = fsck_clean none true false (λ s. s) store_tree base mail reports_nothing
