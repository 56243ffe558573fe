-- ===== src/Store/Target.antt =====
-- target of pkg/store/store.go: an entry is found where it was written.
use binpass.Prelude.{
  ok_inj, true, List, [], ◌∷◌, ◌++◌, Option, none, some, Bytes, ◌==◌, bytes_eq, ==-eq, Result, ok,
  err, ◌>>=◌, >>=-eq-ok, ◌≡◌, ◌⊎◌, inl, inr, refl, subst, sym, ap, ◌∙◌, arith, All, contains,
  Bool-cases,
}
use binpass.Prelude.Dict.{insert}
use binpass.Paths.{rel}
use binpass.Storage.{
  Disk, FindError, path_of, dir_path, dir_of, ext_of, nonempty, first_file, found, relative, find,
}
use binpass.Store.{
  Backend, Backends, StoreError, exts, backend_for, lifted, chosen, other_for, default_for,
  backend_for_new, target, target_of,
}
use binpass.Store.Search.{ext_of-append, first_file-insert, first_file-insert_again}

-- Backends that the extension of a path tells apart, each of which decrypts what it has encrypted.
pub record IsSound (s : Backends) : Type 0 where
  pub first_known : backend_for s.all s.first.ext ≡ ok s.first
  pub each_known : All (λ b. backend_for s.all b.ext ≡ ok b) s.all
  pub proper : All (λ b. (ext_of b.ext ≡ b.ext) × (nonempty b.ext ≡ true)) s.all
  pub opens :
      All
        (λ b.
          (plain : Bytes) (rcp : List Bytes) (content : Bytes)
          → b.encrypt plain rcp ≡ some content
          → b.decrypt content ≡ some plain)
        s.all

chosen-ok :
    (o : Option (List Bytes)) (a : Backend) (later : Result StoreError Backend) (b : Backend)
    → chosen o a later ≡ ok b
    → (a ≡ b) ⊎ (later ≡ ok b)
chosen-ok none a later b h = inr h
chosen-ok (some _) a later b h = inl (ok_inj h)

module _ (P : Backend → Type 0) where
  pub backend_for-All :
      (bs : List Backend) (ext : Bytes) (b : Backend) → All P bs → backend_for bs ext ≡ ok b → P b
  unfolding backend_for
  backend_for-All [] ext b u h = cc
  backend_for-All (a ∷ bs) ext b (p, u) h = elim (Bool-cases (a.ext == ext)) [
    | inl same ↦ subst P (ok_inj (rw same at h)) p
    | inr other ↦ backend_for-All bs ext b u (rw other at h)
  ]

  other_for-All :
      (bs : List Backend) (default : Backend) (dir : Bytes) (d : Disk) (b : Backend)
      → All P bs
      → other_for bs default dir d ≡ ok b
      → P b
  unfolding other_for
  other_for-All [] default dir d b u h = cc
  other_for-All (a ∷ bs) default dir d b (p, u) h = elim (Bool-cases (a.ext == default.ext)) [
    | inl same ↦ other_for-All bs default dir d b u (rw same at h)
    | inr other ↦
        elim (chosen-ok (a.recipients d dir) a (other_for bs default dir d) b (rw other at h)) [
          | inl this ↦ subst P this p
          | inr later ↦ other_for-All bs default dir d b u later
        ]
  ]

pub backend_for-ext :
    (bs : List Backend) (ext : Bytes) (b : Backend) → backend_for bs ext ≡ ok b → b.ext ≡ ext
unfolding backend_for
backend_for-ext [] ext b h = cc
backend_for-ext (a ∷ bs) ext b h = elim (Bool-cases (a.ext == ext)) [
  | inl same ↦ ap (λ k. k.ext) (sym (ok_inj (rw same at h))) ∙ ==-eq a.ext ext same
  | inr other ↦ backend_for-ext bs ext b (rw other at h)
]

pub contains-exts :
    (bs : List Backend) (ext : Bytes) (b : Backend)
    → backend_for bs ext ≡ ok b
    → contains (exts bs) ext ≡ true
unfolding backend_for
contains-exts [] ext b h = cc
contains-exts (a ∷ bs) ext b h = ground (arith, contains-exts bs ext b, h)

-- The backend for a new entry is one that its extension finds again.
pub backend_for_new-known :
    (s : Backends) (name : Bytes) (d : Disk) (b : Backend)
    → IsSound s
    → backend_for_new s name d ≡ ok b
    → backend_for s.all b.ext ≡ ok b
unfolding backend_for_new default_for
backend_for_new-known s name d b sound h =
    let (dir, here, next) =
      >>=-eq-ok (lifted (dir_path name)) (λ dir. default_for s (dir_of dir) d) h in
    elim (chosen-ok (s.first.recipients d (dir_of dir)) s.first
      (other_for s.all s.first (dir_of dir) d) b next) [
        | inl first ↦ subst (λ k. backend_for s.all k.ext ≡ ok k) first sound.first_known
        | inr later ↦
            other_for-All (λ k. backend_for s.all k.ext ≡ ok k) s.all s.first (dir_of dir) d b
              sound.each_known later
      ]

-- The parts of a search that succeeds, and of one that fails for a name inside the store.
pub Result-cases :
    {E A : Type 0} (r : Result E A) → ((a : A) × (r ≡ ok a)) ⊎ ((e : E) × (r ≡ err e))
Result-cases (ok a) = inl (a, refl)
Result-cases (err e) = inr (e, refl)

pub lifted-ok : (r : Result FindError Bytes) (q : Bytes) → lifted r ≡ ok q → r ≡ ok q
lifted-ok (ok p) q h = ap ok (ok_inj h)
lifted-ok (err e) q h = cc

pub found-ok : (o : Option Bytes) (path : Bytes) → found o ≡ ok path → o ≡ some path
found-ok none path h = cc
found-ok (some q) path h = ap some (ok_inj h)

pub relative-ok :
    (o : Option Bytes) (f : Bytes → Result FindError Bytes) (path : Bytes)
    → (relative o >>= f) ≡ ok path
    → (p : Bytes) × (o ≡ some p) × (f p ≡ ok path)
relative-ok none f path h = cc
relative-ok (some p) f path h = (p, refl, h)

pub find-ok :
    (name : Bytes) (es : List Bytes) (d : Disk) (path : Bytes)
    → find name es d ≡ ok path
    → (p : Bytes) × (rel name ≡ some p) × (first_file p es d ≡ some path)
unfolding find
find-ok name es d path h =
    let (p, inside, there) = relative-ok (rel name) (λ p. found (first_file p es d)) path h in
    (p, inside, found-ok (first_file p es d) path there)

pub find-inside :
    (name : Bytes) (es : List Bytes) (d : Disk) (p : Bytes)
    → rel name ≡ some p
    → find name es d ≡ found (first_file p es d)
unfolding find
find-inside name es d p h = rw h refl

pub found-err : (o : Option Bytes) (e : FindError) → found o ≡ err e → o ≡ none
found-err none e h = refl
found-err (some q) e h = cc

-- The path of an entry that is there is the one that is written again.
target_of-ok :
    (s : Backends) (name q path c : Bytes) (b : Backend) (d : Disk)
    → find name (exts s.all) d ≡ ok q
    → target_of s name d (ok q) ≡ ok (path, b)
    → (backend_for s.all (ext_of path) ≡ ok b)
      × (find name (exts s.all) (insert path c d) ≡ ok path)
unfolding target_of
target_of-ok s name q path c b d e t =
    let (k, known, pair) = >>=-eq-ok (backend_for s.all (ext_of q)) (λ k. ok (q, k)) t in
    let same_path = ap (λ x. x.0) (ok_inj pair) in
    let same_backend = ap (λ x. x.1) (ok_inj pair) in
    let (p, inside, there) = find-ok name (exts s.all) d q e in
    subst
      (λ x. (backend_for s.all (ext_of x) ≡ ok b) × (find name (exts s.all) (insert x c d) ≡ ok x))
      same_path
      (
        known ∙ ap ok same_backend,
        find-inside name (exts s.all) (insert q c d) p inside
            ∙ ap found (first_file-insert_again p q c (exts s.all) d there),
      )

-- A new entry is found under the path that is chosen for it.
target_of-err :
    (s : Backends) (name path c : Bytes) (x : FindError) (b : Backend) (d : Disk)
    → IsSound s
    → find name (exts s.all) d ≡ err x
    → target_of s name d (err x) ≡ ok (path, b)
    → (backend_for s.all (ext_of path) ≡ ok b)
      × (find name (exts s.all) (insert path c d) ≡ ok path)
unfolding target_of path_of
target_of-err s name path c x b d sound e t =
    let (k, new, rest) =
      >>=-eq-ok (backend_for_new s name d) (λ k. lifted (path_of name k.ext) >>= λ q. ok (q, k))
        t in
    let (q, there, pair) = >>=-eq-ok (lifted (path_of name k.ext)) (λ q. ok (q, k)) rest in
    let (p, inside, at_p) =
      relative-ok (rel name) (λ p. ok (p ++ k.ext)) q (lifted-ok (path_of name k.ext) q there) in
    let known = backend_for_new-known s name d k sound new in
    let (proper, long) =
      backend_for-All (λ b. (ext_of b.ext ≡ b.ext) × (nonempty b.ext ≡ true)) s.all k.ext k
        sound.proper known in
    let none_yet =
      found-err (first_file p (exts s.all) d) x
        (sym (find-inside name (exts s.all) d p inside) ∙ e) in
    let same_path = ok_inj at_p ∙ ap (λ x. x.0) (ok_inj pair) in
    let same_backend = ap (λ x. x.1) (ok_inj pair) in
    subst
      (λ x. (backend_for s.all (ext_of x) ≡ ok b) × (find name (exts s.all) (insert x c d) ≡ ok x))
      same_path
      (
        ap (backend_for s.all) (ext_of-append p k.ext proper long) ∙ known ∙ ap ok same_backend,
        find-inside name (exts s.all) (insert (p ++ k.ext) c d) p inside
            ∙ ap found (
                first_file-insert p k.ext c (exts s.all) d (contains-exts s.all k.ext k known)
                  none_yet),
      )

-- An entry is found under the path that it was written to, and read by the backend that wrote it.
pub target-find :
    (s : Backends) (name path c : Bytes) (b : Backend) (d : Disk)
    → IsSound s
    → target s name d ≡ ok (path, b)
    → (backend_for s.all (ext_of path) ≡ ok b)
      × (find name (exts s.all) (insert path c d) ≡ ok path)
unfolding target
target-find s name path c b d sound h = elim (Result-cases (find name (exts s.all) d)) [
  | inl (q, e) ↦ target_of-ok s name q path c b d e (ap (target_of s name d) (sym e) ∙ h)
  | inr (x, e) ↦ target_of-err s name path c x b d sound e (ap (target_of s name d) (sym e) ∙ h)
]
