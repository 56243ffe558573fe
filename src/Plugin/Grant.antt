-- ===== src/Plugin/Grant.antt =====
-- pkg/plugin/lock.go: the approvals of a user, and whether one still covers a plugin.
pub mod Laws
use binpass.Prelude.{
  ℕ, ◌-◌, Bool, true, false, not, ◌&&◌, ◌||◌, List, [], ◌∷◌, ◌++◌, Option, none, some, Bytes, codes,
  ltb, ◌==◌, bytes_eq, if◌then◌else◌, contains, length, drop, nat_eq,
}
use binpass.Prelude.Dict.{Dict, lookup, insert, erase}
use binpass.Text.{take, has_prefix}
use binpass.Plugin.Manifest.{Capabilities, Manifest}
use binpass.Plugin.Glob.{any_depth}

-- `Grant`; its moment is a number of nanoseconds.
pub record Grant : Type 0 where
  pub name : Bytes
  pub version : Bytes
  pub digest : Bytes
  pub capabilities : Capabilities
  pub granted_at : ℕ

-- `Grants` of a `Lock`.
abbrev pub Lock : Type 0
Lock = Dict Bytes Grant

-- `GrantState`
pub data GrantState : Type 0 where
  missing stale widened valid : GrantState

-- `Grant`, the method, at a moment.
unfoldable pub approve : Lock → Manifest → Bytes → ℕ → Lock
approve l m digest now =
    insert m.name
      (record {
        name = m.name;
        version = m.version;
        digest = digest;
        capabilities = m.capabilities;
        granted_at = now;
      })
      l

-- `Revoke`
unfoldable pub revoke : Lock → Bytes → Lock
revoke l name = erase name l

-- `hasPathPrefix`
unfoldable pub has_path_prefix : Bytes → Bytes → Bool
unfolding has_prefix
has_path_prefix p prefix = has_prefix p (prefix ++ b'/' ∷ [])

-- `trimSuffix`
unfoldable pub trim_suffix : Bytes → Bytes → Option Bytes
unfolding take
trim_suffix s suffix =
    if ltb (length suffix) (length s) && drop (length s - length suffix) s == suffix
    then some (take (length s - length suffix) s)
    else none

below : Option Bytes → Bytes → Bool
below none b = false
below (some rest) b = b == rest || has_path_prefix b rest

-- `subsumes`
unfoldable pub subsumes : Bytes → Bytes → Bool
unfolding below has_path_prefix trim_suffix
subsumes a b = if a == any_depth then true else below (trim_suffix a (codes "/**")) b

-- `patternCovered`
pub pattern_covered : List Bytes → Bytes → Bool
pattern_covered [] want = false
pattern_covered (h ∷ granted) want = (h == want || subsumes h want) || pattern_covered granted want

-- `covers`
unfoldable pub covers : List Bytes → List Bytes → Bool
unfolding pattern_covered
covers granted [] = true
covers granted (w ∷ want) = pattern_covered granted w && covers granted want

-- `coversHosts`, which also serves for binaries.
unfoldable pub covers_hosts : List Bytes → List Bytes → Bool
covers_hosts granted [] = true
covers_hosts granted (w ∷ want) =
    (contains granted w || contains granted (codes "*")) && covers_hosts granted want

-- `widens`
unfoldable pub widens : Capabilities → Capabilities → Bool
unfolding covers covers_hosts
widens granted want =
    if want.decrypt && not granted.decrypt
    then true
    else not (covers granted.read_paths want.read_paths)
      || (not (covers granted.write_paths want.write_paths)
          || (not (covers_hosts granted.network want.network)
              || not (covers_hosts granted.exec want.exec)))

check_grant : Option Grant → Manifest → Bytes → GrantState
check_grant none m digest = missing
check_grant (some g) m digest =
    if not (g.digest == digest)
    then stale
    else if widens g.capabilities m.capabilities
    then widened
    else valid

-- `Check`
unfoldable pub check : Lock → Manifest → Bytes → GrantState
unfolding check_grant widens
check l m digest = check_grant (lookup m.name l) m digest
