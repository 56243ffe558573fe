-- ===== src/Plugin/Dispatch.antt =====
-- pkg/plugin/dispatch.go and discover.go: how a command is mapped to a plugin. The directories are
-- given as what they hold; the program runs on Linux.
pub mod Laws
use binpass.Prelude.{
  ℕ, zero, suc, Bool, true, false, not, ◌&&◌, ◌||◌, List, [], ◌∷◌, ◌++◌, map, Option, none, some,
  Bytes, codes, nat_eqb, ◌==◌, bytes_eq, if◌then◌else◌, contains, length, drop, pos,
}
use binpass.Text.{has_prefix, trim_prefix}
use binpass.SecretService.Item.{sort_texts}
use binpass.Sync.Merge.{bytes_ltb}
use binpass.Plugin.Manifest.{Capabilities, Manifest, api_version, valid_name}
use binpass.Plugin.Runtime.{Plugin}

-- A directory of PATH, spelled as `filepath.Join` spells it, with the names in it.
pub record PathFolder : Type 0 where
  pub name : Bytes
  pub files : List Bytes

-- `Source` and what its file system holds: the plugins that `discoverDir` loads, in the order of
-- the directories, the directories of PATH that can be read, and whether a file can be run.
pub record Source : Type 0 where
  pub managed : List Plugin
  pub path_lookup : Bool
  pub path : List PathFolder
  pub runs : Bytes → Bool

-- `Candidate`, of a file on PATH.
pub record Candidate : Type 0 where
  pub name : Bytes
  pub path : Bytes
  pub executable : Bool

-- `Resolution`
pub record Resolution : Type 0 where
  pub plugin : Plugin
  pub args : List Bytes
  pub command : Bytes

-- `canonical`
unfoldable pub canonical : Bytes → Bytes
canonical [] = []
canonical (c ∷ s) = (if nat_eqb c b'_' then b'-' else c) ∷ canonical s

abbrev plugin_prefix : Bytes
plugin_prefix = codes "binpass-"

-- `commandName`
unfoldable pub command_name : Bytes → Option Bytes
unfolding canonical
command_name file =
    let name = canonical (trim_prefix file plugin_prefix) in
    if not (has_prefix file plugin_prefix)
    then none
    else if name == [] || not (valid_name name)
    then none
    else some name

-- The files of one directory that are named like plugins.
unfoldable pub plugin_files : (Bytes → Bool) → Bytes → List Bytes → List Candidate
unfolding command_name
plugin_files runs folder [] = []
plugin_files runs folder (file ∷ files) =
    let rest = plugin_files runs folder files in
    let full = folder ++ b'/' ∷ file in
    elim (command_name file) [
      | none ↦ rest
      | some name ↦ record { name = name; path = full; executable = runs full } ∷ rest
    ]

-- `scanPath`
unfoldable pub scan_path : (Bytes → Bool) → List PathFolder → List Candidate
unfolding plugin_files
scan_path runs [] = []
scan_path runs (f ∷ path) =
    let rest = scan_path runs path in
    if f.name == [] then rest else plugin_files runs f.name (sort_texts f.files) ++ rest

-- A file without a manifest is given one that asks for nothing.
abbrev unmanaged : Candidate → Plugin
unmanaged c = record {
  manifest = record {
    name = c.name;
    version = [];
    description = codes "unmanaged executable on PATH";
    api = pos api_version;
    level = pos 1;
    exec = [];
    capabilities = record {
      read_paths = [];
      write_paths = [];
      decrypt = false;
      network = [];
      exec = [];
    };
  };
  path = c.path;
  dir = [];
  managed = false;
}

-- The loop of `discoverPath`, with the names that it has seen.
unfoldable pub path_plugins : List Bytes → List Candidate → List Plugin
path_plugins seen [] = []
path_plugins seen (c ∷ found) =
    let rest = path_plugins seen found in
    let more = path_plugins (c.name ∷ seen) found in
    if contains seen c.name || not c.executable then rest else unmanaged c ∷ more

-- `discoverPath`
unfoldable pub discover_path : Source → List Plugin
unfolding scan_path path_plugins
discover_path s = path_plugins [] (scan_path s.runs s.path)

-- The loops of `Discover`, with the names that they have seen.
unfoldable pub first_of_name : List Bytes → List Plugin → List Plugin
first_of_name seen [] = []
first_of_name seen (p ∷ ps) =
    let rest = first_of_name seen ps in
    let more = first_of_name (p.manifest.name ∷ seen) ps in
    if contains seen p.manifest.name then rest else p ∷ more

-- `sort.Slice`, by the name.
unfoldable pub insert_plugin : Plugin → List Plugin → List Plugin
insert_plugin p [] = p ∷ []
insert_plugin p (q ∷ qs) =
    let rest = insert_plugin p qs in
    if bytes_ltb q.manifest.name p.manifest.name then q ∷ rest else p ∷ q ∷ qs

unfoldable pub sort_plugins : List Plugin → List Plugin
unfolding insert_plugin
sort_plugins [] = []
sort_plugins (p ∷ ps) = insert_plugin p (sort_plugins ps)

-- The plugins in the order of their precedence.
unfoldable pub in_order : Source → List Plugin
unfolding discover_path
in_order s = s.managed ++ (if s.path_lookup then discover_path s else [])

-- `Discover`
unfoldable pub discover : Source → List Plugin
unfolding first_of_name sort_plugins in_order
discover s = sort_plugins (first_of_name [] (in_order s))

-- The loop of `Find`
unfoldable pub find_in : Bytes → List Plugin → Option Plugin
find_in name [] = none
find_in name (p ∷ ps) = if p.manifest.name == name then some p else find_in name ps

-- `Find`
unfoldable pub find : Source → Bytes → Option Plugin
unfolding find_in discover
find s name = find_in name (discover s)

-- The arguments in front of the first flag.
unfoldable pub words : List Bytes → List Bytes
words [] = []
words (a ∷ args) = let rest = words args in if has_prefix a (codes "-") then [] else a ∷ rest

-- The first `n`, join_first by a byte.
unfoldable pub join_first : ℕ → ℕ → List Bytes → Bytes
join_first b zero args = []
join_first b (suc n) [] = []
join_first b (suc zero) (a ∷ args) = a
join_first b (suc (suc n)) (a ∷ []) = a
join_first b (suc (suc n)) (a ∷ next ∷ args) = a ++ b ∷ join_first b (suc n) (next ∷ args)

-- What `n` words are resolved to, where `rest` is what fewer are resolved to.
abbrev pub resolved_at : List Bytes → ℕ → Option Resolution → Option Plugin → Option Resolution
resolved_at args n rest none = rest
resolved_at args n rest (some p) =
    some record { plugin = p; args = drop n args; command = join_first b' ' n args }

-- The loop of `Resolve`, from `n` words down to one.
unfoldable pub resolve_from : Source → List Bytes → ℕ → Option Resolution
unfolding find canonical join_first words
resolve_from s args zero = none
resolve_from s args (suc n) =
    resolved_at args (suc n) (resolve_from s args n)
      (find s (canonical (join_first b'-' (suc n) (words args))))

-- `Resolve`
unfoldable pub resolve : Source → List Bytes → Option Resolution
unfolding resolve_from words
resolve s args = resolve_from s args (length (words args))
