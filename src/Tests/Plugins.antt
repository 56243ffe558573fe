-- ===== src/Tests/Plugins.antt =====
-- Runs of the capabilities of plugins.
use binpass.Prelude.{
  true, none, not, length, List, [], ◌∷◌, ◌++◌, Option, some, Bytes, codes, bytes_eq, nat_eq, ◌≡◌,
  refl, arith, pos,
}
use binpass.Prelude.Dict.{lookup}
use binpass.Text.{has_prefix, has_suffix, trim_prefix, trim_space, ends_in}
use binpass.Paths.{rel}
use binpass.Plugin.Manifest.{Capabilities, Manifest, valid_name}
use binpass.Plugin.Glob.{any_depth}
use binpass.Plugin.Grant.{Grant, Lock, check, widens, covers, covers_hosts}
use binpass.Plugin.Guard.{Guard, can_read, can_write, can_decrypt, check_exec, check_network}
use binpass.Plugin.Guard.Laws.{check-valid, acting, implies, is_ok}
use binpass.Plugin.Guard.Traversal.{IsName, around, can_decrypt-around}
use binpass.Plugin.Runtime.{Runner, Plugin, env_for, app_guard}
use binpass.SecretService.Item.{sort_texts}
use binpass.Sync.Merge.{bytes_ltb}
use binpass.Plugin.Dispatch.{Source, Resolution, words, discover, resolve}
use binpass.Plugin.Dispatch.Laws.{Answers, resolve-Answers}
use binpass.Plugin.Runtime.Laws.{IsGetenv, values, agreed, app_guard-env_for}

abbrev work : Capabilities
work = record {
  read_paths = (codes "work" ++ b'/' ∷ any_depth) ∷ [];
  write_paths = [];
  decrypt = true;
  network = [];
  exec = [];
}

abbrev backup : Manifest
backup = record {
  name = codes "backup";
  version = codes "1";
  description = [];
  api = pos 1;
  level = pos 1;
  exec = [];
  capabilities = work;
}

abbrev approvals : Lock
approvals =
    (
      codes "backup",
      record {
        name = codes "backup";
        version = codes "1";
        digest = codes "d";
        capabilities = work;
        granted_at = 0;
      },
    )
    ∷ []

abbrev mail_entry : Bytes
mail_entry = codes "work/mail"

check-valid_example :
    (g : Grant) × (lookup (codes "backup") approvals ≡ some g)
    × (g.digest ≡ codes "d")
    × (implies
          (can_read (acting (codes "backup") work) mail_entry)
          (can_read (acting (codes "backup") g.capabilities) mail_entry)
        ≡ true)
    × (implies
          (can_write (acting (codes "backup") work) mail_entry)
          (can_write (acting (codes "backup") g.capabilities) mail_entry)
        ≡ true)
    × (implies
          (can_decrypt (acting (codes "backup") work) mail_entry)
          (can_decrypt (acting (codes "backup") g.capabilities) mail_entry)
        ≡ true)
    × (implies
          (is_ok (check_exec (acting (codes "backup") work) (codes "tar")))
          (is_ok (check_exec (acting (codes "backup") g.capabilities) (codes "tar")))
        ≡ true)
    × (implies
          (is_ok (check_network (acting (codes "backup") work) (codes "h")))
          (is_ok (check_network (acting (codes "backup") g.capabilities) (codes "h")))
        ≡ true)
unfolding check lookup widens covers covers_hosts bytes_eq
check-valid_example =
    check-valid approvals backup (codes "d") mail_entry (codes "tar") (codes "h") refl

abbrev under_guard : Guard
under_guard = acting (codes "backup") work

work-IsName : IsName (codes "work")
unfolding nat_eq
work-IsName = record {
  no_slash = ground arith;
  no_star = refl;
  nonempty = ground arith;
  no_dot = ground arith;
  no_dots = ground arith;
}

can_decrypt-around_example :
    (can_decrypt under_guard (around (codes "work") (codes "bank")) ≡ true)
    × (rel (around (codes "work") (codes "bank")) ≡ rel (codes "bank"))
unfolding trim_space has_prefix
can_decrypt-around_example =
    can_decrypt-around under_guard (codes "work") (codes "bank") work-IsName refl refl refl refl
      refl (ground arith)

-- An environment that is read as the first value of a variable.
abbrev first_value : List Bytes → Bytes
first_value [] = []
first_value (v ∷ _) = v

abbrev lookup_env : List Bytes → Bytes → Bytes
lookup_env env key = first_value (values key env)

lookup_env-IsGetenv : IsGetenv lookup_env
lookup_env-IsGetenv = record { set = λ key v env h. (rw h refl); unset = λ key env h. (rw h refl) }

abbrev installed : Plugin
installed = record { manifest = backup; path = codes "/p/run"; dir = codes "/p"; managed = true }

abbrev here : Runner
here = record { bin = codes "/b"; store_dir = codes "/s"; version = codes "1" }

abbrev encode_work : Capabilities → Option Bytes
encode_work c = some (codes "w")

abbrev decode_work : Bytes → Option Capabilities
decode_work raw = some work

app_guard-env_for_example :
    (env : List Bytes) × (env_for encode_work here installed (codes "BINPASS_PLUGIN=x" ∷ [])
      ≡ some env)
    × (app_guard decode_work (lookup_env env) ≡ agreed backup true)
app_guard-env_for_example =
    app_guard-env_for lookup_env lookup_env-IsGetenv encode_work decode_work here installed
      (codes "BINPASS_PLUGIN=x" ∷ []) (codes "w") refl refl (ground arith) (ground arith)

-- Two plugins on PATH, the second with the longer name, and a file that cannot be run.
abbrev tools : Source
tools = record {
  managed = installed ∷ [];
  path_lookup = true;
  path =
      record {
        name = codes "/bin";
        files =
            codes "binpass-cloud_sync"
            ∷ codes "binpass-cloud"
            ∷ codes "binpass-dead"
            ∷ codes "ls"
            ∷ [];
      }
      ∷ [];
  runs = λ file. not (has_suffix file (codes "dead"));
}

abbrev sync_now : List Bytes
sync_now = codes "cloud" ∷ codes "sync" ∷ codes "now" ∷ codes "-f" ∷ []

abbrev told : Option Resolution → Bytes × List Bytes × Bytes
told none = ([], [], [])
told (some r) = (r.plugin.path, r.args, r.command)

longest_wins :
    told (resolve tools sync_now)
    ≡ (codes "/bin/binpass-cloud_sync", codes "now" ∷ codes "-f" ∷ [], codes "cloud sync")
unfolding resolve has_suffix discover sort_texts has_prefix trim_prefix bytes_ltb valid_name
    bytes_eq ends_in
longest_wins = refl

dead_ignored : told (resolve tools (codes "dead" ∷ [])) ≡ ([], [], [])
unfolding resolve has_suffix discover sort_texts has_prefix trim_prefix bytes_ltb valid_name
    bytes_eq ends_in
dead_ignored = refl

resolve-Answers_example : Answers tools sync_now (length (words sync_now)) (resolve tools sync_now)
resolve-Answers_example = resolve-Answers tools sync_now
