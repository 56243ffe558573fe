-- ===== src/Tests/Versions.antt =====
-- Runs of version vectors.
use binpass.Prelude.{[], ◌∷◌, ◌≡◌, ◌↔◌, refl, arith, true, bytes_eq}
use binpass.Prelude.Dict.{lookup, NodupKeys}
use binpass.Sync.Version.{VersionVector, dominates, merge}
use binpass.Sync.Version.Order.{Below, Ahead, dominates_iff}
use binpass.Sync.Version.Join.{merge_least}
use binpass.Sync.Version.{DeviceId, marshal_entries}
use binpass.Tests.Data.{laptop, phone, second, other}

second_map : NodupKeys second
unfolding lookup
second_map = (refl, tt)

other_map : NodupKeys other
unfolding lookup bytes_eq
other_map = (refl, (refl, tt))

dominates_iff_example : (dominates second other ≡ true) ↔ (Below other second × Ahead other second)
dominates_iff_example = dominates_iff second other second_map other_map

abbrev joined : VersionVector
joined = (laptop, 2) ∷ (phone, 1) ∷ []

second-joined : Below second joined
unfolding lookup
second-joined id = ground arith

other-joined : Below other joined
unfolding lookup
other-joined id = ground arith

merge_least_example :
    Below second (merge second other)
    × Below other (merge second other)
    × Below (merge second other) joined
merge_least_example = merge_least second other joined other_map second-joined other-joined

abbrev with_zero : VersionVector
with_zero = (laptop, 2) ∷ (phone, 0) ∷ []

with_zero_map : NodupKeys with_zero
unfolding lookup bytes_eq
with_zero_map = (refl, (refl, tt))

decodes_second : (k : DeviceId) → lookup k second ≡ lookup k (marshal_entries with_zero)
unfolding marshal_entries
decodes_second k = refl
