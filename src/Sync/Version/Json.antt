-- ===== src/Sync/Version/Json.antt =====
-- pkg/sync/version.go: `MarshalJSON` and `UnmarshalJSON`.
use binpass.Prelude.{ℕ, true, [], ◌∷◌, Option, none, some, bytes_eq, ◌≡◌, refl, ap, ◌∙◌, arith}
use binpass.Prelude.Dict.{
  Dict, lookup, insert, lookup-insert, lookup-cons, lookup-nil, insert-NodupKeys, NodupKeys,
}
use binpass.Sync.Version.{
  DeviceId, VersionVector, counter, equal, marshal_entries, unmarshal_entries, value_or_zero,
}
use binpass.Sync.Version.Order.{equal_iff}

absent-marshal :
    (a : VersionVector) (j : DeviceId) → lookup j a ≡ none → lookup j (marshal_entries a) ≡ none
unfolding marshal_entries
absent-marshal [] j h = h
absent-marshal ((id, c) ∷ a) j h =
    ground (arith, absent-marshal a j, lookup-cons j id c a, lookup-cons j id c (marshal_entries a))

counter-marshal_entries :
    (a : VersionVector) (j : DeviceId) → NodupKeys a → counter (marshal_entries a) j ≡ counter a j
unfolding marshal_entries
counter-marshal_entries [] j u = refl
counter-marshal_entries ((id, c) ∷ a) j (fresh, u) = ground (
  arith,
  counter-marshal_entries a j u,
  absent-marshal a id fresh,
  lookup-cons j id c a,
  lookup-cons j id c (marshal_entries a),
)

abbrev stored : Option ℕ → ℕ → ℕ
stored none earlier = earlier
stored (some c) earlier = c

counter-unmarshal_entries :
    (m : Dict DeviceId ℕ) (a : VersionVector) (j : DeviceId)
    → NodupKeys m
    → counter (unmarshal_entries a m) j ≡ stored (lookup j m) (counter a j)
unfolding unmarshal_entries
counter-unmarshal_entries [] a j u = rw (lookup-nil j) refl
counter-unmarshal_entries ((k, v) ∷ m) a j (fresh, u) = ground (
  arith,
  counter-unmarshal_entries m (insert k v a) j u,
  lookup-insert j k v a,
  lookup-cons j k v m,
)

unmarshal_entries-NodupKeys :
    (m : Dict DeviceId ℕ) (a : VersionVector) → NodupKeys a → NodupKeys (unmarshal_entries a m)
unfolding unmarshal_entries
unmarshal_entries-NodupKeys [] a u = u
unmarshal_entries-NodupKeys ((k, v) ∷ m) a u =
    unmarshal_entries-NodupKeys m (insert k v a) (insert-NodupKeys k v a u)

stored_zero : (o : Option ℕ) → stored o 0 ≡ value_or_zero o
stored_zero none = refl
stored_zero (some c) = refl

-- A version vector that is encoded and decoded again equals itself, if the decoded map is one that
-- has the encoded entries, in any order: the entries of 0, which are left out, make no difference.
pub unmarshal_entries-marshal_entries :
    (a : VersionVector) (m : Dict DeviceId ℕ)
    → NodupKeys a
    → NodupKeys m
    → ((k : DeviceId) → lookup k m ≡ lookup k (marshal_entries a))
    → equal (unmarshal_entries [] m) a ≡ true
unmarshal_entries-marshal_entries a m u um same =
    (equal_iff (unmarshal_entries [] m) a (unmarshal_entries-NodupKeys m [] tt) u).1 (λ j.
      counter-unmarshal_entries m [] j um
      ∙ ap (stored (lookup j m)) (ap value_or_zero (lookup-nil j))
      ∙ stored_zero (lookup j m)
      ∙ ap value_or_zero (same j)
      ∙ counter-marshal_entries a j u)
