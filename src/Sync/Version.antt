-- ===== src/Sync/Version.antt =====
-- pkg/sync/version.go: version vectors.
pub mod Order
pub mod Divergence
pub mod Join
pub mod Json
use binpass.Prelude.{
  ℕ, ◌+◌, ◌%◌, ◌^◌, Bool, true, false, not, ◌&&◌, ◌||◌, [], ◌∷◌, Option, none, some, Bytes,
  bytes_eq, nat_eqb, ltb, if◌then◌else◌,
}
use binpass.Prelude.Dict.{Dict, lookup, insert}

abbrev pub DeviceId : Type 0
DeviceId = Bytes

abbrev pub VersionVector : Type 0
VersionVector = Dict DeviceId ℕ

-- Go's `v[id]`, where a missing entry reads as 0.
abbrev pub value_or_zero : Option ℕ → ℕ
value_or_zero none = 0
value_or_zero (some c) = c

abbrev pub counter : VersionVector → DeviceId → ℕ
counter v id = value_or_zero (lookup id v)

-- The test of either loop of `Equal` on one entry.
abbrev agrees : Option ℕ → ℕ → Bool
agrees none c = nat_eqb c 0
agrees (some d) c = nat_eqb d c

-- One loop of `Equal`: every entry of the first vector agrees with the second.
pub covers : VersionVector → VersionVector → Bool
covers [] b = true
covers ((id, ca) ∷ a) b = agrees (lookup id b) ca && covers a b

unfoldable pub equal : VersionVector → VersionVector → Bool
unfolding covers
equal a b = covers a b && covers b a

-- The first loop of `Dominates`. `none` is its early `return false`, and the flag is
-- `hasStrictlyGreater`.
pub dominates_loop : VersionVector → VersionVector → Bool → Option Bool
dominates_loop [] b greater = some greater
dominates_loop ((id, ca) ∷ a) b greater =
    let rest = dominates_loop a b (greater || ltb (counter b id) ca) in
    if ltb ca (counter b id) then none else rest

abbrev is_missing : Option ℕ → Bool
is_missing none = true
is_missing (some _) = false

-- The second loop of `Dominates`: no device of `b` with a counter is absent from `a`.
pub none_missing : VersionVector → VersionVector → Bool
none_missing [] a = true
none_missing ((id, cb) ∷ b) a =
    let rest = none_missing b a in if is_missing (lookup id a) && ltb 0 cb then false else rest

unfoldable pub dominates : VersionVector → VersionVector → Bool
unfolding dominates_loop none_missing
dominates a b = elim (dominates_loop a b false) [
  | none ↦ false
  | some greater ↦ if none_missing b a then greater else false
]

-- The copy of a nil map is an empty one: both are the empty list here.
abbrev pub clone : VersionVector → VersionVector
clone a = a

-- `!ok || cb > ca`
abbrev raises : Option ℕ → ℕ → Bool
raises none cb = true
raises (some ca) cb = ltb ca cb

pub merge_loop : VersionVector → VersionVector → VersionVector
merge_loop out [] = out
merge_loop out ((id, cb) ∷ b) =
    merge_loop (if raises (lookup id out) cb then insert id cb out else out) b

unfoldable pub merge : VersionVector → VersionVector → VersionVector
unfolding merge_loop
merge a b = merge_loop (clone a) b

-- Counters are 64-bit words.
abbrev pub uint64 : ℕ
uint64 = 2 ^ 64

unfoldable pub increment : VersionVector → DeviceId → ℕ → VersionVector
increment a device delta = insert device ((counter a device + delta) % uint64) (clone a)

pub is_empty : VersionVector → Bool
is_empty [] = true
is_empty ((_, c) ∷ a) = nat_eqb c 0 && is_empty a

unfoldable pub diverges : VersionVector → VersionVector → Bool
diverges a b = not (equal a b) && not (dominates a b) && not (dominates b a)

-- The map that `MarshalJSON` hands to the encoder: the entries above 0.
unfoldable pub marshal_entries : VersionVector → Dict DeviceId ℕ
marshal_entries [] = []
marshal_entries ((id, c) ∷ a) =
    let rest = marshal_entries a in if ltb 0 c then (id, c) ∷ rest else rest

-- `UnmarshalJSON`: the decoded entries are stored into the vector one by one.
unfoldable pub unmarshal_entries : VersionVector → Dict DeviceId ℕ → VersionVector
unmarshal_entries a [] = a
unmarshal_entries a ((k, v) ∷ m) = unmarshal_entries (insert k v a) m
