-- ===== src/Sync/Version/Join.antt =====
-- pkg/sync/version.go: `Merge` and `Increment`.
use binpass.Prelude.{
  ℕ, ◌+◌, ◌<◌, ◌%◌, max, true, [], ◌∷◌, ◌≡◌, arith, ◌==◌, bytes_eq, if◌then◌else◌,
}
use binpass.Prelude.Dict.{lookup, lookup-insert, insert, insert-NodupKeys, NodupKeys}
use binpass.Sync.Version.{
  DeviceId, VersionVector, counter, raises, merge_loop, merge, increment, dominates, uint64,
}
use binpass.Sync.Version.Order.{Below, dominates_iff}

-- One round of the loop of `Merge`.
abbrev join_step : VersionVector → DeviceId → ℕ → VersionVector
join_step out id c = if raises (lookup id out) c then insert id c out else out

counter-join_step :
    (out : VersionVector) (id : DeviceId) (c : ℕ) (j : DeviceId)
    → counter (join_step out id c) j ≡ (if j == id then max (counter out j) c else counter out j)
counter-join_step out id c j = ground (arith, lookup-insert j id c out)

join_step-NodupKeys :
    (out : VersionVector) (id : DeviceId) (c : ℕ) → NodupKeys out → NodupKeys (join_step out id c)
join_step-NodupKeys out id c u = ground (arith, insert-NodupKeys id c out u)

counter-merge_loop :
    (out b : VersionVector) (j : DeviceId)
    → NodupKeys b
    → counter (merge_loop out b) j ≡ max (counter out j) (counter b j)
unfolding merge_loop lookup
counter-merge_loop out [] j u = omega arith
counter-merge_loop out ((id, c) ∷ b) j (fresh, u) =
    ground (arith, counter-merge_loop (join_step out id c) b j u, counter-join_step out id c j)

merge_loop-NodupKeys : (out b : VersionVector) → NodupKeys out → NodupKeys (merge_loop out b)
unfolding merge_loop
merge_loop-NodupKeys out [] u = u
merge_loop-NodupKeys out ((id, c) ∷ b) u =
    merge_loop-NodupKeys (join_step out id c) b (join_step-NodupKeys out id c u)

pub merge-NodupKeys : (a b : VersionVector) → NodupKeys a → NodupKeys (merge a b)
unfolding merge
merge-NodupKeys a b u = merge_loop-NodupKeys a b u

-- `Merge` takes the greater counter of every device.
pub counter-merge :
    (a b : VersionVector) (id : DeviceId)
    → NodupKeys b
    → counter (merge a b) id ≡ max (counter a id) (counter b id)
unfolding merge
counter-merge a b id u = counter-merge_loop a b id u

-- The merge of two histories, the second of which is a map, is the least one that contains both.
pub merge_least :
    (a b c : VersionVector)
    → NodupKeys b
    → Below a c
    → Below b c
    → Below a (merge a b) × Below b (merge a b) × Below (merge a b) c
merge_least a b c u h k = (
  λ id. omega (arith, counter-merge a b id u),
  λ id. omega (arith, counter-merge a b id u),
  λ id. omega (arith, counter-merge a b id u, h id, k id),
)

pub merge-above : (a b : VersionVector) → NodupKeys b → Below a (merge a b) × Below b (merge a b)
merge-above a b u =
    (λ id. omega (arith, counter-merge a b id u), λ id. omega (arith, counter-merge a b id u))

pub counter-increment :
    (a : VersionVector) (device : DeviceId) (delta : ℕ) (id : DeviceId)
    → counter (increment a device delta) id
      ≡ (if id == device then (counter a device + delta) % uint64 else counter a id)
unfolding increment
counter-increment a device delta id =
    ground (arith, lookup-insert id device ((counter a device + delta) % uint64) a)

pub increment-NodupKeys :
    (a : VersionVector) (device : DeviceId) (delta : ℕ)
    → NodupKeys a
    → NodupKeys (increment a device delta)
unfolding increment
increment-NodupKeys a device delta u = insert-NodupKeys device _ a u

-- An increment of a map by a positive delta dominates the version that it was made from, where the
-- counter does not wrap around.
pub dominates-increment :
    (a : VersionVector) (device : DeviceId) (delta : ℕ)
    → NodupKeys a
    → 0 < delta
    → counter a device + delta < uint64
    → dominates (increment a device delta) a ≡ true
dominates-increment a device delta u pos fits =
    (dominates_iff (increment a device delta) a (increment-NodupKeys a device delta u) u).1 (
      λ id. ground (arith, counter-increment a device delta id),
      (device, ground (arith, counter-increment a device delta device)),
    )
