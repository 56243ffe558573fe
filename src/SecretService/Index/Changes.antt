-- ===== src/SecretService/Index/Changes.antt =====
-- pkg/secretservice/index.go: what a search finds after an item is added or removed.
use binpass.Prelude.{
  true, false, not, ◌&&◌, ◌||◌, List, [], ◌∷◌, ◌++◌, none, some, Bytes, ◌==◌, bytes_eq,
  if◌then◌else◌, contains, All, ◌≡◌, ◌≢◌, inl, inr, refl, sym, ◌∙◌, arith, Bool-cases,
}
use binpass.Prelude.Dict.{Dict, lookup, NodupKeys, lookup-insert, lookup-cons, lookup-nil}
use binpass.SecretService.Index.{
  Index, Blinding, or_nil, others, kept, remove, blind, add_id, add_pairs, add, search_index,
}
use binpass.SecretService.Item.{Item, sort_texts}
use binpass.SecretService.Index.Laws.{carried, contains-search_index, contains-sort_texts}

contains-others :
    (id : Bytes) (ids : List Bytes) (x : Bytes)
    → contains (others id ids) x ≡ (contains ids x && not (x == id))
unfolding others
contains-others id [] x = refl
contains-others id (y ∷ ids) x = ground (arith, contains-others id ids x)

lookup-kept :
    (b k : Bytes) (ids : List Bytes) (ix : Index)
    → lookup k ix ≡ none
    → or_nil (lookup b (kept k ids ix)) ≡ (if b == k then ids else or_nil (lookup b ix))
lookup-kept b k [] ix fresh = ground arith
lookup-kept b k (y ∷ ids) ix fresh = ground (arith, lookup-cons b k (y ∷ ids) ix)

absent-kept :
    (b k : Bytes) (ids : List Bytes) (ix : Index)
    → (b == k) ≡ false
    → lookup b ix ≡ none
    → lookup b (kept k ids ix) ≡ none
absent-kept b k [] ix ne h = h
absent-kept b k (y ∷ ids) ix ne h = ground (arith, lookup-cons b k (y ∷ ids) ix)

absent-remove : (id b : Bytes) (ix : Index) → lookup b ix ≡ none → lookup b (remove id ix) ≡ none
unfolding remove
absent-remove id b [] h = lookup-nil b
absent-remove id b ((k, ids) ∷ ix) h = elim (Bool-cases (b == k)) [
  | inl same ↦ ground (arith, lookup-cons b k ids ix)
  | inr other ↦
      absent-kept b k (others id ids) (remove id ix) other
        (absent-remove id b ix (ground (arith, lookup-cons b k ids ix)))
]

lookup-remove :
    (id b : Bytes) (ix : Index)
    → NodupKeys ix
    → or_nil (lookup b (remove id ix)) ≡ others id (or_nil (lookup b ix))
unfolding remove others
lookup-remove id b [] u = rw (lookup-nil b) refl
lookup-remove id b ((k, ids) ∷ ix) (fresh, u) =
    lookup-kept b k (others id ids) (remove id ix) (absent-remove id k ix fresh)
    ∙ ground (arith, lookup-cons b k ids ix, lookup-remove id b ix u)

contains-append :
    (xs ys : List Bytes) (x : Bytes) → contains (xs ++ ys) x ≡ (contains xs x || contains ys x)
contains-append [] ys x = refl
contains-append (y ∷ xs) ys x = ground (arith, contains-append xs ys x)

none-ne-some : {A : Type 0} {a : A} → none ≢ some a
none-ne-some h = cc

unchanged :
    (b id : Bytes) (ix : Index) (c x : Bytes)
    → contains (or_nil (lookup b ix)) id ≡ true
    → contains (or_nil (lookup c ix)) x
      ≡ (contains (or_nil (lookup c ix)) x || ((c == b) && (x == id)))
unchanged b id ix c x there = ground arith

contains-add_id :
    (lib : Blinding) (index_key b id : Bytes) (ix : Index) (c x : Bytes)
    → contains (or_nil (lookup c (add_id lib index_key b id ix))) x
      ≡ (contains (or_nil (lookup c ix)) x || ((c == b) && (x == id)))
unfolding add_id
contains-add_id lib index_key b id ix c x = elim (Bool-cases (contains (or_nil (lookup b ix)) id)) [
  | inl there ↦ rw there (unchanged b id ix c x there)
  | inr new ↦ rw new (elim (Bool-cases (c == b)) [
    | inl same ↦ ground (
      arith,
      lookup-insert c b (sort_texts (or_nil (lookup b ix) ++ id ∷ [])) ix,
      contains-sort_texts (or_nil (lookup b ix) ++ id ∷ []) x,
      contains-append (or_nil (lookup b ix)) (id ∷ []) x,
    )
    | inr other ↦
        ground (arith, lookup-insert c b (sort_texts (or_nil (lookup b ix) ++ id ∷ [])) ix)
  ])
]

-- The pairs of an item that is added: the index keeps what it had.
contains-add_pairs :
    (lib : Blinding) (index_key : Bytes) (attrs : Dict Bytes Bytes) (id : Bytes) (ix : Index)
    (c x : Bytes)
    → contains (or_nil (lookup c ix)) x ≡ true
    → contains (or_nil (lookup c (add_pairs lib index_key attrs id ix))) x ≡ true
unfolding add_pairs
contains-add_pairs lib index_key [] id ix c x h = h
contains-add_pairs lib index_key ((k, v) ∷ attrs) id ix c x h =
    let b = blind lib index_key k v in
    contains-add_pairs lib index_key attrs id (add_id lib index_key b id ix) c x
      (contains-add_id lib index_key b id ix c x ∙ rw h refl)

carried-add_pairs :
    (lib : Blinding) (index_key : Bytes) (attrs : Dict Bytes Bytes) (id : Bytes) (ix : Index)
    (k v : Bytes)
    → lookup k attrs ≡ some v
    → contains (or_nil (lookup (blind lib index_key k v) (add_pairs lib index_key attrs id ix))) id
      ≡ true
unfolding add_pairs
carried-add_pairs lib index_key [] id ix k v h = absurd (none-ne-some (sym (lookup-nil k) ∙ h))
carried-add_pairs lib index_key ((j, w) ∷ attrs) id ix k v h =
    let b = blind lib index_key j w in
    elim (Bool-cases (k == j)) [
      | inl same ↦
          contains-add_pairs lib index_key attrs id (add_id lib index_key b id ix)
            (blind lib index_key k v) id
            (contains-add_id lib index_key b id ix (blind lib index_key k v) id
              ∙ ground (arith, lookup-cons k j w attrs))
      | inr other ↦
          carried-add_pairs lib index_key attrs id (add_id lib index_key b id ix) k v
            (ground (arith, lookup-cons k j w attrs))
    ]

carried-add :
    (lib : Blinding) (index_key : Bytes) (it : Item) (ix : Index) (query : Dict Bytes Bytes)
    → All (λ q. lookup q.0 it.attributes ≡ some q.1) query
    → carried lib index_key (add lib index_key it ix) query it.id ≡ true
unfolding carried add
carried-add lib index_key it ix [] h = refl
carried-add lib index_key it ix ((k, v) ∷ query) (here, h) =
    rw (carried-add_pairs lib index_key it.attributes it.id ix k v here)
      (carried-add lib index_key it ix query h)

-- An item that was added is found by every query of one or more of its attributes, whatever the
-- index held before.
pub search_index-add :
    (lib : Blinding) (index_key : Bytes) (it : Item) (ix : Index) (query : Dict Bytes Bytes)
    → query ≢ []
    → All (λ q. lookup q.0 it.attributes ≡ some q.1) query
    → contains (search_index lib index_key (add lib index_key it ix) query) it.id ≡ true
search_index-add lib index_key it ix [] ne h = absurd (ne refl)
search_index-add lib index_key it ix (q ∷ query) ne h =
    contains-search_index lib index_key (add lib index_key it ix) (q ∷ query) it.id
    ∙ carried-add lib index_key it ix (q ∷ query) h

-- An item that was removed from an index that is a map is found by no query.
pub search_index-remove :
    (lib : Blinding) (index_key : Bytes) (id : Bytes) (ix : Index) (query : Dict Bytes Bytes)
    → NodupKeys ix
    → contains (search_index lib index_key (remove id ix) query) id ≡ false
unfolding carried
search_index-remove lib index_key id ix [] u =
    contains-search_index lib index_key (remove id ix) [] id
search_index-remove lib index_key id ix ((k, v) ∷ query) u =
    let b = blind lib index_key k v in
    contains-search_index lib index_key (remove id ix) ((k, v) ∷ query) id
    ∙ ground (arith, lookup-remove id b ix u, contains-others id (or_nil (lookup b ix)) id)
