-- ===== src/Tests/Running.antt =====
-- Runs of a synchronisation over a disk, a remote and a database in memory.
use binpass.Prelude.{
  [], ◌∷◌, none, some, Bytes, bytes_eq, codes, ◌≡◌, ◌⊎◌, refl, sym, ap, ◌∙◌, arith,
}
use binpass.Prelude.Dict.{Dict, lookup, insert, erase, lookup-insert, NodupKeys}
use binpass.Sync.State.{FilePath}
use binpass.Sync.Merge.{
  Action, act_conflict, act_delete, created_independently, deleted_remotely, decide,
}
use binpass.Sync.ConflictName.{conflict_name}
use binpass.Sync.Run.{Disk, Remote, Database, World, RemoteFile, apply_action}
use binpass.Sync.Run.Laws.{IsDisk, apply_conflict_keeps_local}
use binpass.Prelude.{◌≢◌}
use binpass.Sync.State.{no_digest}
use binpass.Tests.Data.{laptop, mail, first, known, edited, foreign, base}

abbrev disk : Disk
disk = record {
  State = Dict FilePath Bytes;
  read = λ s p. lookup p s;
  write = λ s p content. some (insert p content s);
}

abbrev remote : Remote
remote = record {
  State = Dict FilePath Bytes;
  get = λ s p. lookup p s;
  put = λ s p content rev. some (insert p content s);
  delete = λ s p rev. some (erase p s);
}

abbrev database : Database
database = record {
  State = Unit {0};
  update_file = λ s f. some s;
  delete_file = λ s p. some s;
  record_sync = λ s. some s;
}

some_injective : {A : Type 0} {a b : A} → some a ≡ some b → a ≡ b
some_injective h = cc

disk-IsDisk : IsDisk disk
disk-IsDisk = record {
  read-write =
      λ s t p q content e. ap (lookup q) (sym (some_injective e)) ∙ lookup-insert q p content s;
}

abbrev world : World disk remote database
world = record { disk = (mail, codes "mine") ∷ []; remote = (mail, codes "theirs") ∷ []; db = tt }

abbrev conflict : Action
conflict =
    decide (record { path = mail; local = some edited; remote = some foreign; base = none })
      act_conflict created_independently none 0

abbrev deletion : Action
deletion =
    decide (record { path = mail; local = some known; remote = none; base = some known }) act_delete
      deleted_remotely none 0

there : lookup mail ((mail, codes "mine") ∷ []) ≡ some (codes "mine")
unfolding lookup bytes_eq
there = refl

apply_conflict_keeps_local_example :
    (lookup mail (apply_action disk remote database laptop (codes "t") conflict world).0.disk
      ≡ some (codes "mine"))
    ⊎ (lookup
          (conflict_name mail laptop (codes "t"))
          (apply_action disk remote database laptop (codes "t") conflict world).0.disk
        ≡ some (codes "mine"))
apply_conflict_keeps_local_example =
    apply_conflict_keeps_local disk remote database disk-IsDisk laptop (codes "t") conflict edited
      (codes "mine") world refl refl there

abbrev listed : RemoteFile
listed = record { path = mail; size = 9; mod_time = 9; rev = codes "r"; hash = codes "new" }

listed_in_base : lookup mail base ≡ some known
unfolding lookup bytes_eq
listed_in_base = refl

first_map : NodupKeys first
unfolding lookup
first_map = (refl, tt)

abbrev unlisted : RemoteFile
unlisted = record { path = mail; size = 1; mod_time = 9; rev = codes "r"; hash = no_digest }

mine_there : lookup mail world.disk ≡ some (codes "mine")
unfolding lookup bytes_eq
mine_there = refl

short : codes "mine" ≢ no_digest
unfolding no_digest
short = ground arith
