-- ===== src/SecretService/Store/Deletion.antt =====
-- pkg/secretservice/store.go: an item that was deleted is not found.
use binpass.Prelude.{
  false, List, [], ◌∷◌, none, some, Bytes, ◌≡◌, ◌≢◌, refl, ◌∙◌, arith, bytes_eq, contains, ok,
}
use binpass.Prelude.Dict.{Dict, NodupKeys}
use binpass.SecretService.Item.{Item}
use binpass.SecretService.Index.{Index, Blinding, remove, search_index}
use binpass.SecretService.Store.{
  PassStore, IndexJson, Service, read_item, confirmed_items, index, keep_index, write_entry,
  save_index, save_changed, search,
}
use binpass.SecretService.Store.Search.{item-id}
use binpass.SecretService.Index.Changes.{search_index-remove}
use binpass.SecretService.Store.{delete_item, delete_entry}
use binpass.SecretService.Store.Finding.{item_with, search-index, index-warm, confirmed-other}

module _ {W : Type 0} (pass : PassStore W) (json : IndexJson) (lib : Blinding)
    (index_key : Bytes) where
  confirmed_items-absent :
      (collection id : Bytes) (query : Dict Bytes Bytes) (ids : List Bytes) (w : W)
      → contains ids id ≡ false
      → item_with id (confirmed_items pass json lib index_key collection query ids w) ≡ none
  unfolding confirmed_items item_with
  confirmed_items-absent collection id query [] w h = refl
  confirmed_items-absent collection id query (x ∷ ids) w h =
      confirmed-other query id x (read_item pass json lib index_key collection x w)
        (confirmed_items pass json lib index_key collection query ids w)
        (λ found e. item-id pass json lib index_key collection x w found e) (ground arith)
      ∙ confirmed_items-absent collection id query ids w (ground arith)

  -- What deleting an item leaves in memory.
  delete_item-cached :
      (collection id : Bytes) (ix : Index) (s s' : Service W)
      → s.cached ≡ some ix
      → delete_item pass json lib index_key collection id s ≡ (ok tt, s')
      → s'.cached ≡ some (remove id ix)
  unfolding delete_item delete_entry index save_changed save_index write_entry keep_index
  delete_item-cached collection id ix s s' warm h = ground arith

  -- An item that was deleted is found by no query of one or more attributes, whatever the files hold,
  -- where the index in memory is a map.
  pub search-delete_item :
      (collection id : Bytes) (query : Dict Bytes Bytes) (ix : Index) (s s' : Service W)
      → s.cached ≡ some ix
      → NodupKeys ix
      → delete_item pass json lib index_key collection id s ≡ (ok tt, s')
      → query ≢ []
      → (found : List Item) × (search pass json lib index_key collection query s' ≡ (ok found, s'))
        × (item_with id found ≡ none)
  search-delete_item collection id query ix s s' warm unique h ne =
      let left = delete_item-cached collection id ix s s' warm h in
      (
        confirmed_items pass json lib index_key collection query
            (search_index lib index_key (remove id ix) query) s'.world,
        search-index pass json lib index_key collection query s' s' (remove id ix) ne
            (index-warm pass json lib index_key s' (remove id ix) left),
        confirmed_items-absent collection id query (search_index lib index_key (remove id ix) query)
            s'.world (search_index-remove lib index_key id ix query unique),
      )
