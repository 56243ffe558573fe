-- ===== src/Plugin/Runtime.antt =====
-- pkg/plugin/runtime.go, Guard of internal/cli/app.go: the environment that a plugin is run in, and
-- what a binpass that it calls takes from it.
pub mod Laws
use binpass.Prelude.{
  Bool, true, false, List, [], ◌∷◌, ◌++◌, Option, none, some, Bytes, codes, ◌==◌, bytes_eq,
  if◌then◌else◌, contains,
}
use binpass.Text.{cut}
use binpass.Plugin.Manifest.{Capabilities, Manifest}
use binpass.Plugin.Guard.{Guard}

-- `Runner`, without the streams.
pub record Runner : Type 0 where
  pub bin : Bytes
  pub store_dir : Bytes
  pub version : Bytes

-- `Plugin`
pub record Plugin : Type 0 where
  pub manifest : Manifest
  pub path : Bytes
  pub dir : Bytes
  pub managed : Bool

abbrev pub env_name : Bytes
env_name = codes "BINPASS_PLUGIN"

abbrev pub env_capabilities : Bytes
env_capabilities = codes "BINPASS_PLUGIN_CAPABILITIES"

-- `stripped`
abbrev pub stripped : List Bytes
stripped = env_capabilities ∷ env_name ∷ codes "PASSWORD_STORE_DIR" ∷ codes "BINPASS_STORE" ∷ []

-- What the environment has for a variable.
abbrev pub setting : Bytes → Bytes → Bytes
setting key value = key ++ b'=' ∷ value

abbrev takes_out : Bytes × Bytes × Bool → Bool
takes_out (key, _, found) = if found then contains stripped key else false

-- `sanitiseEnv`
unfoldable pub sanitise_env : List Bytes → List Bytes
unfolding cut
sanitise_env [] = []
sanitise_env (kv ∷ env) =
    let rest = sanitise_env env in if takes_out (cut b'=' kv) then rest else kv ∷ rest

-- The settings of the contract, without the capabilities.
abbrev pub contract : Runner → Plugin → List Bytes
contract r p =
    setting (codes "BINPASS_API") (codes "1")
    ∷ setting (codes "BINPASS_BIN") r.bin
    ∷ setting (codes "BINPASS_STORE") r.store_dir
    ∷ setting (codes "BINPASS_VERSION") r.version
    ∷ setting (codes "BINPASS_PLUGIN_DIR") p.dir
    ∷ setting env_name p.manifest.name
    ∷ setting (codes "PASSWORD_STORE_DIR") r.store_dir
    ∷ []

module _ (encode : Capabilities → Option Bytes) where
  granted : Plugin → List Bytes → Option (List Bytes)
  granted p env = elim (encode p.manifest.capabilities) [
    | none ↦ none
    | some encoded ↦ some (env ++ setting env_capabilities encoded ∷ [])
  ]

  -- `env`, of the environment of this process; none where the capabilities cannot be encoded.
  unfoldable pub env_for : Runner → Plugin → List Bytes → Option (List Bytes)
  unfolding granted
  env_for r p environ =
      let env = sanitise_env environ ++ contract r p in
      if p.managed then granted p env else some env

-- The empty capabilities.
abbrev pub no_capabilities : Capabilities
no_capabilities = record {
  read_paths = [];
  write_paths = [];
  decrypt = false;
  network = [];
  exec = [];
}

guarded : Capabilities × Bytes × Bool → Guard
guarded (caps, name, restricted) = record { name = name; caps = caps; active = restricted }

module _ (decode : Bytes → Option Capabilities) where
  -- The capabilities that a name comes with. Where they cannot be decoded, none are taken.
  restriction : Bytes → Bytes → Capabilities × Bytes × Bool
  restriction name raw = elim (decode raw) [
    | none ↦ (no_capabilities, name, true)
    | some caps ↦ (caps, name, true)
  ]

  -- `ActiveCapabilities`
  unfoldable pub active_capabilities : (Bytes → Bytes) → Capabilities × Bytes × Bool
  unfolding restriction
  active_capabilities getenv =
      let name = getenv env_name in
      let raw = getenv env_capabilities in
      if name == []
      then (no_capabilities, [], false)
      else if raw == []
      then (no_capabilities, name, false)
      else restriction name raw

  -- `Guard` of the App.
  unfoldable pub app_guard : (Bytes → Bytes) → Guard
  unfolding active_capabilities guarded
  app_guard getenv = guarded (active_capabilities getenv)
