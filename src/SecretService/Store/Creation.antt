-- ===== src/SecretService/Store/Creation.antt =====
-- pkg/secretservice/store.go: what creating an item writes.
use binpass.Prelude.{
  true, [], ◌∷◌, ◌++◌, Option, none, some, Bytes, ◌≡◌, sym, ap, ◌∙◌, subst, arith, bytes_eq, ok,
  Option-cases, inl, inr,
}
use binpass.Secret.{Secret, parse}
use binpass.SecretService.Item.{Item, Moment, to_secret}
use binpass.SecretService.Index.{Index, Blinding, add, remove}
use binpass.SecretService.Store.{
  PassStore, IndexJson, Service, ◌>>=◌, return, Run, bound, item_path, index_path, index,
  keep_index, write_entry, save_index, save_changed, created_at, store_item, identified,
  create_over, create_item, found_or_none, find_by_attributes,
}
use binpass.SecretService.Store.Search.{bound-eq-ok, index-world}

module _ {W : Type 0} (pass : PassStore W) (json : IndexJson) (lib : Blinding)
    (index_key : Bytes) where
  pub save_changed-ok :
      (ix : Index) (s s' : Service W)
      → save_changed pass json lib index_key ix s ≡ (ok tt, s')
      → (encoded : Bytes) × (json.encode ix ≡ some encoded)
        × (pass.set index_path (parse (encoded ++ b'\n' ∷ [])) s.world ≡ some s'.world)
        × (s'.cached ≡ some ix)
  unfolding save_changed save_index keep_index write_entry
  save_changed-ok ix s s' h = elim (Option-cases (json.encode ix)) [
    | inl bad ↦ absurd (ground arith)
    | inr (encoded, good) ↦ (encoded, good, ground arith, ground arith)
  ]

  write_entry-ok :
      (name : Bytes) (sec : Secret) (s s' : Service W)
      → write_entry pass json lib index_key name sec s ≡ (ok tt, s')
      → pass.set name sec s.world ≡ some s'.world
  unfolding write_entry
  write_entry-ok name sec s s' h = ground arith

  -- What an item is stored as.
  abbrev pub stored_as : Item → Moment → Item
  stored_as it now = record it {
    created = created_at pass json lib index_key it.created now;
    modified = now;
  }

  -- An item that was stored is written under its path, and then an index that has it.
  pub record Stored (collection : Bytes) (made : Item) (before : W) (after : Service W)
      : Type 0 where
    pub entry : W
    pub ix : Index
    pub encoded : Bytes
    pub written : pass.set (item_path collection made.id) (to_secret made) before ≡ some entry
    pub encodes : json.encode (add lib index_key made (remove made.id ix)) ≡ some encoded
    pub indexed : pass.set index_path (parse (encoded ++ b'\n' ∷ [])) entry ≡ some after.world
    pub in_memory : after.cached ≡ some (add lib index_key made (remove made.id ix))

  store_item-Stored :
      (collection : Bytes) (now : Moment) (it made : Item) (s s' : Service W)
      → store_item pass json lib index_key collection now it s ≡ (ok made, s')
      → (made ≡ stored_as it now) × Stored collection made s.world s'
  unfolding store_item
  store_item-Stored collection now it made s s' h =
      let new = stored_as it now in
      let update : Index → Run W Item = λ ix.
        save_changed pass json lib index_key (add lib index_key new (remove new.id ix)) >>= λ _.
        return new in
      let (_, s1, wrote, h1) =
        bound-eq-ok
          (write_entry pass json lib index_key (item_path collection new.id) (to_secret new) s)
          (λ _. index pass json lib index_key >>= update) h in
      let (ix, s2, got, h2) = bound-eq-ok (index pass json lib index_key s1) update h1 in
      let (_, s3, saved, h3) =
        bound-eq-ok
          (save_changed pass json lib index_key (add lib index_key new (remove new.id ix)) s2)
          (λ _. return new) h2 in
      let (encoded, encodes, set_index, kept) =
        save_changed-ok (add lib index_key new (remove new.id ix)) s2 s3 saved in
      let same : made ≡ new = cc in
      let ends : s3 ≡ s' = ap (λ r. r.1) h3 in
      let unmoved = index-world pass json lib index_key s1 s2 ix got in
      let stored : Stored collection new s.world s3 = record {
        entry = s1.world;
        ix = ix;
        encoded = encoded;
        written = write_entry-ok (item_path collection new.id) (to_secret new) s s1 wrote;
        encodes = encodes;
        indexed =
            subst (λ w. pass.set index_path (parse (encoded ++ b'\n' ∷ [])) w ≡ some s3.world)
              unmoved set_index;
        in_memory = kept;
      } in
      (
        same,
        subst (λ m. Stored collection m s.world s') (sym same)
            (subst (λ t. Stored collection new s.world t) ends stored),
      )

  identified-attributes :
      (it made : Item) (random : Option Bytes) (s s' : Service W)
      → identified pass json lib index_key it random s ≡ (ok made, s')
      → (made.attributes ≡ it.attributes) × (s'.world ≡ s.world)
  unfolding identified
  identified-attributes it made random s s' h = ground arith

  identified-store_item-Stored :
      (collection : Bytes) (it made : Item) (random : Option Bytes) (now : Moment)
      (s s' : Service W)
      → bound
          (identified pass json lib index_key it random s)
          (store_item pass json lib index_key collection now)
        ≡ (ok made, s')
      → (before : W) × (made.attributes ≡ it.attributes) × Stored collection made before s'
  identified-store_item-Stored collection it made random now s s' h =
      let (named, s1, got, h1) =
        bound-eq-ok (identified pass json lib index_key it random s)
          (store_item pass json lib index_key collection now) h in
      let (same, stored) = store_item-Stored collection now named made s1 s' h1 in
      (
        s1.world,
        ap (λ i. i.attributes) same ∙ (identified-attributes it named random s s1 got).0,
        stored,
      )

  create_over-Stored :
      (collection : Bytes) (it made : Item) (random : Option Bytes) (now : Moment)
      (found : Option Item) (s s' : Service W)
      → create_over pass json lib index_key collection it true random now found s ≡ (ok made, s')
      → (before : W) × (made.attributes ≡ it.attributes) × Stored collection made before s'
  unfolding create_over
  create_over-Stored collection it made random now none s s' h =
      identified-store_item-Stored collection it made random now s s' h
  create_over-Stored collection it made random now (some old) s s' h =
      identified-store_item-Stored collection (record it { id = old.id; created = old.created })
        made random now s s' h

  pub create_item-Stored :
      (collection : Bytes) (it made : Item) (random : Option Bytes) (now : Moment)
      (s s' : Service W)
      → create_item pass json lib index_key collection it true random now s ≡ (ok made, s')
      → (before : W) × (made.attributes ≡ it.attributes) × Stored collection made before s'
  unfolding create_item
  create_item-Stored collection it made random now s s' h =
      let (found, s1, got, h1) =
        bound-eq-ok
          (found_or_none pass json lib index_key
            (find_by_attributes pass json lib index_key collection it.attributes s))
          (create_over pass json lib index_key collection it true random now) h in
      create_over-Stored collection it made random now found s1 s' h1
