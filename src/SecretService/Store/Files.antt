-- ===== src/SecretService/Store/Files.antt =====
-- pkg/secretservice/store.go over pkg/store/store.go: a store of files is what the service takes.
use binpass.Prelude.{
  ℕ, Bool, true, false, Option, none, some, Bytes, ◌≡◌, refl, ap, ◌∙◌, some_inj, arith, Result, ok,
  err, ◌==◌, bytes_eq, if◌then◌else◌,
}
use binpass.Secret.{Secret}
use binpass.Storage.{Disk}
use binpass.Store.{Backends, StoreError, get, set, remove, exists}
use binpass.Store.Listing.{list_names}
use binpass.Store.Target.{IsSound}
use binpass.Store.Refinement.{Even, set-expected}
use binpass.SecretService.Store.{PassStore}
use binpass.SecretService.Store.Finding.{IsPassStore}

-- A result without its error.
abbrev pub to_option : {A : Type 0} → Result StoreError A → Option A
to_option (ok a) = some a
to_option (err _) = none

-- The store of files as a password store.
abbrev pub pass_store : Backends → PassStore Disk
pass_store s = record {
  get = λ name d. to_option (get s name d);
  set = λ name sec d. to_option (set s name sec d);
  listing = λ sub d. to_option (list_names s sub d);
  delete = λ name d. to_option (remove s name d);
  has_entry = λ name d. exists s name d;
}

to_option-ok : {A : Type 0} (r : Result StoreError A) (a : A) → to_option r ≡ some a → r ≡ ok a
to_option-ok (ok b) a h = ap ok (some_inj h)
to_option-ok (err e) a h = cc

get-exists :
    (s : Backends) (name : Bytes) (sec : Secret) (d : Disk)
    → get s name d ≡ ok sec
    → exists s name d ≡ true
unfolding get exists
get-exists s name sec d h = ground arith

either :
    {A : Type 0} (b : Bool) (x y : Result StoreError A)
    → to_option (if b then x else y) ≡ (if b then to_option x else to_option y)
either true x y = refl
either false x y = refl

-- A store of files is a password store to the service: under clean names a secret that was written is
-- read, and all others are read as before, where the backends decrypt what they have encrypted, are
-- told apart by their extensions, and the extensions have one length.
pub pass_store-IsPassStore :
    (s : Backends) (n : ℕ) → IsSound s → Even n s.all → IsPassStore (pass_store s)
pass_store-IsPassStore s n sound even = record {
  get-set = λ name other sec w w' clean clean' h.
      ap to_option (
        set-expected s n other name name sec w w' sound even clean
          (to_option-ok (set s other sec w) w' h))
      ∙ rw clean' (either (other == name) (ok sec) (get s name w));
  has_entry-get = λ name sec w h. get-exists s name sec w (to_option-ok (get s name w) sec h);
}
