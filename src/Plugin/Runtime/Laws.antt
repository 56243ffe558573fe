-- ===== src/Plugin/Runtime/Laws.antt =====
-- pkg/plugin/runtime.go: what the environment of a plugin tells a binpass that it calls.
use binpass.Prelude.{
  Bool, true, false, List, [], ◌∷◌, ◌++◌, Option, some, Bytes, ◌==◌, bytes_eq, nat_eq,
  if◌then◌else◌, contains, ◌≡◌, ◌≢◌, refl, sym, ap, ◌∙◌, arith, Bool-cases, inl, inr,
}
use binpass.Text.{cut}
use binpass.Plugin.Manifest.{Capabilities, Manifest}
use binpass.Plugin.Guard.{Guard}
use binpass.Plugin.Guard.Laws.{acting}
use binpass.Plugin.Runtime.{
  Runner, Plugin, env_name, env_capabilities, stripped, setting, takes_out, sanitise_env, contract,
  env_for, granted, active_capabilities, restriction, no_capabilities, guarded, app_guard,
}

-- A guard that lets everything through.
abbrev pub free : Bytes → Guard
free name = record { name = name; caps = no_capabilities; active = false }

-- What the user agreed to: the capabilities of the manifest, for a plugin that was installed.
abbrev pub agreed : Manifest → Bool → Guard
agreed m managed = if managed then acting m.name m.capabilities else free m.name

-- The value that an entry has for a variable, in front of the values of other entries.
abbrev onto_values : Bytes → Bytes × Bytes × Bool → List Bytes → List Bytes
onto_values key (k, v, found) rest = if found then (if k == key then v ∷ rest else rest) else rest

-- The values that an environment has for a variable, in its order.
pub values : Bytes → List Bytes → List Bytes
values key [] = []
values key (kv ∷ env) = onto_values key (cut b'=' kv) (values key env)

-- What the documentation says of `os.Getenv`, where the environment sets a variable at most once.
pub record IsGetenv (getenv : List Bytes → Bytes → Bytes) : Type 0 where
  pub set : (key v : Bytes) (env : List Bytes) → values key env ≡ v ∷ [] → getenv env key ≡ v
  pub unset : (key : Bytes) (env : List Bytes) → values key env ≡ [] → getenv env key ≡ []

values-append :
    (key : Bytes) (a b : List Bytes) → values key (a ++ b) ≡ values key a ++ values key b
unfolding values
values-append key [] b = refl
values-append key (kv ∷ a) b = ground (arith, values-append key a b)

-- A variable that is stripped has no value left.
values-sanitise_env :
    (key : Bytes) (env : List Bytes)
    → contains stripped key ≡ true
    → values key (sanitise_env env) ≡ []
unfolding values sanitise_env
values-sanitise_env key [] h = refl
values-sanitise_env key (kv ∷ env) h = elim (Bool-cases (takes_out (cut b'=' kv))) [
  | inl out ↦ rw out (values-sanitise_env key env h)
  | inr kept ↦ rw kept (ground (arith, kept, h, values-sanitise_env key env h))
]

values-contract :
    (r : Runner) (p : Plugin)
    → (values env_name (contract r p) ≡ p.manifest.name ∷ [])
      × (values env_capabilities (contract r p) ≡ [])
unfolding values cut bytes_eq
values-contract r p = (refl, refl)

values_capabilities :
    (v : Bytes)
    → (values env_name (setting env_capabilities v ∷ []) ≡ [])
      × (values env_capabilities (setting env_capabilities v ∷ []) ≡ v ∷ [])
unfolding values cut bytes_eq
values_capabilities v = (refl, refl)

-- The environment of a plugin sets its name once, and nothing else of what was stripped.
values-base :
    (r : Runner) (p : Plugin) (environ : List Bytes)
    → (values env_name (sanitise_env environ ++ contract r p) ≡ p.manifest.name ∷ [])
      × (values env_capabilities (sanitise_env environ ++ contract r p) ≡ [])
unfolding bytes_eq
values-base r p environ = (
  rw
      (
        values-append env_name (sanitise_env environ) (contract r p),
        values-sanitise_env env_name environ refl,
      )
      ((values-contract r p).0),
  rw
      (
        values-append env_capabilities (sanitise_env environ) (contract r p),
        values-sanitise_env env_capabilities environ refl,
      )
      ((values-contract r p).1),
)

values-granted :
    (env : List Bytes) (name raw : Bytes)
    → values env_name env ≡ name ∷ []
    → values env_capabilities env ≡ []
    → (values env_name (env ++ setting env_capabilities raw ∷ []) ≡ name ∷ [])
      × (values env_capabilities (env ++ setting env_capabilities raw ∷ []) ≡ raw ∷ [])
values-granted env name raw h u = (
  rw
      (
        values-append env_name env (setting env_capabilities raw ∷ []),
        h,
        (values_capabilities raw).0,
      )
      refl,
  rw
      (
        values-append env_capabilities env (setting env_capabilities raw ∷ []),
        u,
        (values_capabilities raw).1,
      )
      refl,
)

restriction-some :
    (decode : Bytes → Option Capabilities) (name raw : Bytes) (caps : Capabilities)
    → decode raw ≡ some caps
    → restriction decode name raw ≡ (caps, name, true)
unfolding restriction
restriction-some decode name raw caps d = rw (restriction, d) refl

module _ (encode : Capabilities → Option Bytes) (r : Runner) (p : Plugin)
    (environ : List Bytes) where
  env_for_granted :
      (raw : Bytes)
      → p.managed ≡ true
      → encode p.manifest.capabilities ≡ some raw
      → env_for encode r p environ
        ≡ some ((sanitise_env environ ++ contract r p) ++ setting env_capabilities raw ∷ [])
  unfolding env_for granted
  env_for_granted raw m e =
      (ap
        (λ b.
          if b
          then granted encode p (sanitise_env environ ++ contract r p)
          else some (sanitise_env environ ++ contract r p))
        m)
      ∙ rw (granted, e) refl

  env_for_free :
      p.managed ≡ false → env_for encode r p environ ≡ some (sanitise_env environ ++ contract r p)
  unfolding env_for
  env_for_free m = ground (arith, m)

module _ (decode : Bytes → Option Capabilities) (getenv : Bytes → Bytes) (name : Bytes) where
  app_guard-free :
      getenv env_name ≡ name
      → getenv env_capabilities ≡ []
      → name ≢ []
      → app_guard decode getenv ≡ free name
  unfolding app_guard active_capabilities guarded
  app_guard-free h u ne = rw (h, u) ground (arith, ne)

  app_guard_granted :
      (raw : Bytes) (caps : Capabilities)
      → getenv env_name ≡ name
      → getenv env_capabilities ≡ raw
      → name ≢ []
      → raw ≢ []
      → decode raw ≡ some caps
      → app_guard decode getenv ≡ acting name caps
  unfolding app_guard active_capabilities restriction guarded
  app_guard_granted raw caps h u ne nr d =
      rw (h, u) ground (arith, ne, nr, restriction-some decode name raw caps d)

module _ (getenv : List Bytes → Bytes → Bytes) (law : IsGetenv getenv)
    (encode : Capabilities → Option Bytes) (decode : Bytes → Option Capabilities) where
  -- A binpass that a plugin calls is under the guard of exactly the capabilities in the plugin's
  -- manifest if binpass installed the plugin, and under none otherwise, whatever the environment
  -- says that the plugin was started from, if the plugin has a name and its capabilities are encoded
  -- as a text that is not empty and is decoded to them again.
  pub app_guard-env_for :
      (r : Runner) (p : Plugin) (environ : List Bytes) (raw : Bytes)
      → encode p.manifest.capabilities ≡ some raw
      → decode raw ≡ some p.manifest.capabilities
      → raw ≢ []
      → p.manifest.name ≢ []
      → (env : List Bytes) × (env_for encode r p environ ≡ some env)
        × (app_guard decode (getenv env) ≡ agreed p.manifest p.managed)
  app_guard-env_for r p environ raw e d nr ne =
      let (named, bare) = values-base r p environ in
      let base = sanitise_env environ ++ contract r p in
      elim (Bool-cases p.managed) [
        | inl m ↦
            let (n, c) = values-granted base p.manifest.name raw named bare in
            let env = base ++ setting env_capabilities raw ∷ [] in
            (
              env,
              env_for_granted encode r p environ raw m e,
              app_guard_granted decode (getenv env) p.manifest.name raw p.manifest.capabilities
                    (law.set env_name p.manifest.name env n) (law.set env_capabilities raw env c) ne
                    nr d
                  ∙ ap (agreed p.manifest) (sym m),
            )
        | inr m ↦ (
          base,
          env_for_free encode r p environ m,
          app_guard-free decode (getenv base) p.manifest.name
                (law.set env_name p.manifest.name base named) (law.unset env_capabilities base bare)
                ne
              ∙ ap (agreed p.manifest) (sym m),
        )
      ]
