-- ===== src/Sync/StateDb/Laws.antt =====
-- pkg/sync/statedb.go: the base that is saved, and the base that is loaded.
use binpass.Prelude.{
  Bool, true, [], ◌∷◌, none, some, Bytes, ◌==◌, bytes_eq, if◌then◌else◌, ◌≡◌, ◌≢◌, ◌⊎◌, contains,
}
use binpass.Prelude.Dict.{Dict, lookup, NodupKeys}
use binpass.Sync.State.{FilePath, FileState, Snapshot}
use binpass.Sync.StateDb.{Bucket, Json, or_same}

-- A bucket is a map: its cursor visits each key once, and a change of one key keeps the others.
pub record IsBucket (B : Bucket) : Type 0 where
  pub entries-get : (s : B.State) (k : Bytes) → lookup k (B.entries s) ≡ B.get s k
  pub entries-Nodup : (s : B.State) → NodupKeys (B.entries s)
  pub put-accepted :
      (s : B.State) (k v : Bytes) → B.accepts k v ≡ true → (t : B.State) × (B.put s k v ≡ some t)
  pub put-get :
      (s t : B.State) (k v j : Bytes)
      → B.put s k v ≡ some t
      → B.get t j ≡ (if j == k then some v else B.get s j)
  pub delete-some : (s : B.State) (k : Bytes) → (t : B.State) × (B.delete s k ≡ some t)
  pub delete-get :
      (s t : B.State) (k j : Bytes)
      → B.delete s k ≡ some t
      → B.get t j ≡ (if j == k then none else B.get s j)

-- A cursor that misses no key that is deleted under it, which bbolt does not promise.
abbrev pub Steady : Bucket → Type 0
Steady B =
    (test : Bytes → Bool) (s : B.State) (k : Bytes)
    → B.get s k ≢ none
    → test k ≡ true
    → contains (B.visited test s) k ≡ true

pub some-ne-none : {A : Type 0} {a : A} → some a ≢ none
some-ne-none h = cc

module _ (B : Bucket) (J : Json) (lawful : IsBucket B) where
  -- Every file of a snapshot has an encoding that the bucket accepts and that decodes to it.
  abbrev pub Storable : Snapshot → Type 0
  Storable [] = Unit
  Storable ((p, f) ∷ snap) =
      ((d : Bytes) × (J.marshal (some f) ≡ some d)
        × (B.accepts p d ≡ true)
        × (J.unmarshal d ≡ some f))
      × Storable snap

  pub delete-get_same :
      (s : B.State) (k j : Bytes)
      → B.get (or_same s (B.delete s k)) j ≡ (if j == k then none else B.get s j)
  delete-get_same s k j = let (t, e) = lawful.delete-some s k in rw e (lawful.delete-get s t k j e)

  -- What a bucket holds of a path after a save, against what it held before and the snapshot.
  Saved : Snapshot → B.State → B.State → FilePath → Type 0
  Saved snap s t j =
      ((lookup j snap ≡ none) × (B.get t j ≡ B.get s j))
      ⊎ ((f : FileState) × (d : Bytes) × (lookup j snap ≡ some f)
          × (B.get t j ≡ some d)
          × (J.unmarshal d ≡ some f))

  -- Every entry decodes to what the snapshot has under its key.
  abbrev Reads : Dict Bytes Bytes → Snapshot → Type 0
  Reads es snap =
      (k v : Bytes)
      → lookup k es ≡ some v
      → (f : FileState) × (J.unmarshal v ≡ some f) × (lookup k snap ≡ some f)

  -- What a load has of a path, against the snapshot that it adds to.
  Loaded : Dict Bytes Bytes → Snapshot → Snapshot → Snapshot → FilePath → Type 0
  Loaded es snap acc got j =
      ((lookup j es ≡ none) × (lookup j got ≡ lookup j acc))
      ⊎ ((lookup j es ≢ none) × (lookup j got ≡ lookup j snap))
