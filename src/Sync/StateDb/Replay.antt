-- ===== src/Sync/StateDb/Replay.antt =====
-- pkg/sync/statedb.go: what `replayWAL` makes of the states and of the log.
use binpass.Prelude.{
  true, List, [], ◌∷◌, Option, none, some, Bytes, codes, ◌==◌, bytes_eq, if◌then◌else◌, ◌≡◌, inl,
  inr, refl, ap, ◌∙◌, arith, Bool-cases, All,
}
use binpass.Sync.State.{FilePath}
use binpass.Sync.StateDb.{
  Bucket, Json, WalEntry, or_same, put_state, replay_entry, replay_entries, clear, replay_all,
  replay_wal, wal_entries,
}
use binpass.Sync.StateDb.Laws.{IsBucket, delete-get_same}

module _ (B : Bucket) (J : Json) where
  -- The entry's state has an encoding that the bucket accepts.
  abbrev pub Replayable : WalEntry → Type 0
  Replayable e = (d : Bytes) × (J.marshal e.state ≡ some d) × (B.accepts e.path d ≡ true)

  abbrev effect : WalEntry → Option Bytes → Option Bytes
  effect e o =
      if e.op == codes "set" then J.marshal e.state else if e.op == codes "delete" then none else o

  -- What a path holds once the entries have taken effect, in their order.
  unfoldable pub final : FilePath → List WalEntry → Option Bytes → Option Bytes
  final j [] o = o
  final j (e ∷ es) o = final j es (if j == e.path then effect e o else o)

module _ (B : Bucket) (J : Json) (lawful : IsBucket B) where
  replay_entry-get :
      (e : WalEntry) (s : B.State)
      → Replayable B J e
      → (t : B.State) × (replay_entry B J e s ≡ some t)
        × ((j : FilePath)
            → B.get t j ≡ (if j == e.path then effect B J e (B.get s j) else B.get s j))
  unfolding replay_entry put_state
  replay_entry-get e s (d, encodes, fits) = elim (Bool-cases (e.op == codes "set")) [
    | inl is_set ↦
        let (t, wrote) = lawful.put-accepted s e.path d fits in
        (
          t,
          rw (is_set, encodes) wrote,
          λ j. rw (is_set, encodes) (lawful.put-get s t e.path d j wrote),
        )
    | inr other ↦ elim (Bool-cases (e.op == codes "delete")) [
      | inl is_delete ↦ (
        or_same s (B.delete s e.path),
        rw (other, is_delete) refl,
        λ j. rw (other, is_delete) (delete-get_same B J lawful s e.path j),
      )
      | inr unknown ↦ (s, rw (other, unknown) refl, λ j. rw (other, unknown) (ground arith))
    ]
  ]

  replay_entries-get :
      (es : List WalEntry) (s : B.State)
      → All (Replayable B J) es
      → (t : B.State) × (replay_entries B J es s ≡ some t)
        × ((j : FilePath) → B.get t j ≡ final B J j es (B.get s j))
  unfolding replay_entries final
  replay_entries-get [] s h = (s, refl, λ j. refl)
  replay_entries-get (e ∷ es) s (r, h) =
      let (s1, one, got) = replay_entry-get e s r in
      let (t, rest, each) = replay_entries-get es s1 h in
      (t, rw one rest, λ j. each j ∙ ap (final B J j es) (got j))

  -- A log of one or more entries that decode and can be stored is always replayed: every path then
  -- holds what the entries say in their order, over what it held before. What is left of the log is
  -- not said: it is cleared under a cursor, which bbolt allows to miss keys.
  pub replay_wal_lem :
      (s w : B.State) (e : WalEntry) (es : List WalEntry)
      → wal_entries B J (B.entries w) ≡ some (e ∷ es)
      → All (Replayable B J) (e ∷ es)
      → (t v : B.State) × (replay_wal B J s w ≡ some (t, v))
        × ((j : FilePath) → B.get t j ≡ final B J j (e ∷ es) (B.get s j))
  unfolding replay_wal replay_all
  replay_wal_lem s w e es decoded h =
      let (t, done, each) = replay_entries-get (e ∷ es) s h in
      (t, clear B J (B.visited (λ k. true) w) w, rw (decoded, done) refl, each)
