-- ===== src/Plugin/Manifest.antt =====
-- pkg/plugin/manifest.go: the manifest of a plugin and the access that it requests.
use binpass.Prelude.{
  ℕ, Bool, true, false, not, ◌&&◌, ◌||◌, List, [], ◌∷◌, ◌++◌, Bytes, codes, nat_eqb, leb, ◌==◌,
  bytes_eq, if◌then◌else◌, contains, nat_eq, Result, ok, ◌>>◌, guard, ℤ, pos, negsuc,
}
use binpass.Text.{has_prefix, ends_in}

-- `Capabilities`
pub record Capabilities : Type 0 where
  pub read_paths : List Bytes
  pub write_paths : List Bytes
  pub decrypt : Bool
  pub network : List Bytes
  pub exec : List Bytes

-- `Manifest`
pub record Manifest : Type 0 where
  pub name : Bytes
  pub version : Bytes
  pub description : Bytes
  pub api : ℤ
  pub level : ℤ
  pub exec : Bytes
  pub capabilities : Capabilities

-- The branches that `Validate` refuses on.
pub data ManifestError : Type 0 where
  no_name bad_name no_api wrong_api bad_level decrypts_nothing bad_host : ManifestError

abbrev pub api_version : ℕ
api_version = 1

abbrev int_is : ℕ → ℤ → Bool
int_is n (pos m) = nat_eqb m n
int_is n (negsuc _) = false

abbrev is_level : ℤ → Bool
is_level (pos n) = leb 1 n && leb n 3
is_level (negsuc _) = false

name_byte : ℕ → Bool
name_byte c = (leb b'a' c && leb c b'z') || ((leb b'0' c && leb c b'9') || nat_eqb c b'-')

all_name_bytes : Bytes → Bool
all_name_bytes [] = true
all_name_bytes (c ∷ s) = name_byte c && all_name_bytes s

-- `validName`. A byte above 127 is part of a rune that is refused, so that the bytes decide.
unfoldable pub valid_name : Bytes → Bool
unfolding all_name_bytes name_byte
valid_name s =
    if s == [] || (has_prefix s (codes "-") || ends_in b'-' s) then false else all_name_bytes s

-- No entry is a URL.
all_hosts : List Bytes → Bool
all_hosts [] = true
all_hosts (h ∷ hs) = not (contains h b'/' || contains h b' ') && all_hosts hs

abbrev requested : List Bytes → Bool
requested [] = false
requested (_ ∷ _) = true

-- A level that is left out is 1.
abbrev pub with_level : Manifest → Manifest
with_level m = if int_is 0 m.level then record m { level = pos 1 } else m

-- `Validate`, with the manifest that it leaves behind.
unfoldable pub validate : Manifest → Result ManifestError Manifest
unfolding all_hosts
validate m = do
  guard (not (m.name == [])) no_name
  guard (valid_name m.name) bad_name
  guard (not (int_is 0 m.api)) no_api
  guard (int_is api_version m.api) wrong_api
  guard (is_level (with_level m).level) bad_level
  guard (not (m.capabilities.decrypt && not (requested m.capabilities.read_paths))) decrypts_nothing
  guard (all_hosts m.capabilities.network) bad_host
  ok (with_level m)

-- `Binary`
unfoldable pub binary : Manifest → Bytes
binary m = if m.exec == [] then codes "binpass-" ++ m.name else m.exec

-- `Sensitive`
unfoldable pub sensitive : Manifest → Bool
sensitive m =
    m.capabilities.decrypt
    || (requested m.capabilities.network
        || (requested m.capabilities.write_paths || requested m.capabilities.exec))
