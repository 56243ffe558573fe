-- ===== src/Importer/Write/Planned.antt =====
-- pkg/importer/export.go: the dry run against the import.
use binpass.Prelude.{
  ℕ, suc, Bool, true, false, List, [], ◌∷◌, ◌++◌, Bytes, bytes_eq, Result, ok, err, ◌≡◌, inl, inr,
  refl, ap, ◌∙◌, Bool-cases, map,
}
use mathlib.Core.Path.{ap₂}
use binpass.Prelude.Dict.{Dict, lookup}
use binpass.Storage.{Disk}
use binpass.Store.{Backends, StoreError, exists}
use binpass.Importer.{
  Imported, Attachment, PathError, store_path, attachment_store_path, numbered, times,
  deduplicate_from, deduplicate_paths,
}
use binpass.Importer.Write.{
  PlanEntry, ImportError, attach, attach_at, write_attachments, with_attachments, write_entry,
  write_round, write_from, write_entries, counted, seen_again, attachment_names, named, plan_path,
  plan_from, plan,
}

-- The paths that a plan has for the entries, each in front of those of its attachments.
unfoldable pub shown : List PlanEntry → List Imported → List Bytes
unfolding attachment_names
shown [] es = []
shown (p ∷ ps) [] = []
shown (p ∷ ps) (e ∷ es) = p.planned_path ∷ (attachment_names e 0 e.attachments ++ shown ps es)

none_left : (xs ys : List ImportError) → xs ++ ys ≡ [] → (xs ≡ []) × (ys ≡ [])
none_left [] ys h = (refl, h)
none_left (x ∷ xs) ys h = cc

module _ (s : Backends) (encode : Bytes → Bytes) where
  attach_written :
      (q : Bytes) (o : Result StoreError Disk) (d : Disk)
      → (attach q o d).errors ≡ []
      → (attach q o d).written ≡ q ∷ []
  unfolding attach
  attach_written q (ok d') d h = refl
  attach_written q (err x) d h = cc

  attach_at_written :
      (e : Imported) (i : ℕ) (a : Attachment) (o : Result PathError Bytes) (ys : List Bytes)
      (d : Disk)
      → (attach_at s encode e i a o d).errors ≡ []
      → (attach_at s encode e i a o d).written ++ ys ≡ named o ys
  unfolding attach_at
  attach_at_written e i a (ok q) ys d h = ap (λ x. x ++ ys) (attach_written q _ d h)
  attach_at_written e i a (err x) ys d h = cc

  write_attachments_written :
      (e : Imported) (i : ℕ) (rest : List Attachment) (d : Disk)
      → (write_attachments s encode e i rest d).errors ≡ []
      → (write_attachments s encode e i rest d).written ≡ attachment_names e i rest
  unfolding write_attachments attachment_names
  write_attachments_written e i [] d h = refl
  write_attachments_written e i (a ∷ rest) d h =
      let (here, later) = none_left _ _ h in
      ap (λ x. (attach_at s encode e i a (attachment_store_path e i) d).written ++ x)
        (write_attachments_written e (suc i) rest _ later)
      ∙ attach_at_written e i a (attachment_store_path e i) (attachment_names e (suc i) rest) d here

  with_attachments_written :
      (e : Imported) (q : Bytes) (o : Result StoreError Disk) (d : Disk)
      → (with_attachments s encode e q o d).errors ≡ []
      → (with_attachments s encode e q o d).written ≡ q ∷ attachment_names e 0 e.attachments
  unfolding with_attachments
  with_attachments_written e q (ok k) d h =
      ap (◌∷◌ q) (write_attachments_written e 0 e.attachments k h)
  with_attachments_written e q (err x) d h = cc

  write_entry_written :
      (force : Bool) (e : Imported) (q : Bytes) (d : Disk)
      → (write_entry s encode force e q d).errors ≡ []
      → (write_entry s encode force e q d).written ≡ q ∷ attachment_names e 0 e.attachments
  unfolding write_entry
  write_entry_written true e q d h = elim (Bool-cases (exists s q d)) [
    | inl there ↦ rw there (with_attachments_written e q _ d (rw there at h))
    | inr free ↦ rw free (with_attachments_written e q _ d (rw free at h))
  ]
  write_entry_written false e q d h = elim (Bool-cases (exists s q d)) [
    | inl there ↦ (let z = rw there at h in cc)
    | inr free ↦ rw free (with_attachments_written e q _ d (rw free at h))
  ]

  write_round_written :
      (force : Bool) (seen : Dict Bytes ℕ) (e : Imported) (o : Result PathError Bytes) (d : Disk)
      → (write_round s encode force seen e o d).errors ≡ []
      → ((write_round s encode force seen e o d).written
          ≡ numbered (plan_path e o) (times (lookup (plan_path e o) seen))
            ∷ attachment_names e 0 e.attachments)
        × (counted o seen ≡ seen_again (plan_path e o) seen)
  unfolding write_round plan_path
  write_round_written force seen e (ok q) d h =
      (write_entry_written force e (numbered q (times (lookup q seen))) d h, refl)
  write_round_written force seen e (err x) d h = cc

  write_from_written :
      (force : Bool) (existing : List Bytes) (seen : Dict Bytes ℕ) (es : List Imported) (d : Disk)
      → (write_from s encode force seen es d).errors ≡ []
      → (write_from s encode force seen es d).written ≡ shown (plan_from existing seen es) es
  unfolding write_from plan_from shown
  write_from_written force existing seen [] d h = refl
  write_from_written force existing seen (e ∷ es) d h =
      let (here, later) = none_left _ _ h in
      let (first, next) = write_round_written force seen e (store_path e) d here in
      ap₂ ◌++◌ first (
        write_from_written force existing (counted (store_path e) seen) es _ later
        ∙ ap (λ k. shown (plan_from existing k es) es) next)

plan_from-deduplicate_from :
    (existing : List Bytes) (seen : Dict Bytes ℕ) (es : List Imported)
    → map (λ p. p.planned_path) (plan_from existing seen es)
      ≡ deduplicate_from seen (map (λ e. plan_path e (store_path e)) es)
unfolding plan_from deduplicate_from
plan_from-deduplicate_from existing seen [] = refl
plan_from-deduplicate_from existing seen (e ∷ es) =
    let p = plan_path e (store_path e) in
    ap (◌∷◌ (numbered p (times (lookup p seen))))
      (plan_from-deduplicate_from existing (seen_again p seen) es)

-- An import that reports no error has written exactly the paths of the dry run, in its order, each
-- followed by those of its attachments, whatever the store held at either time and whether or not
-- the import was forced. The paths of the dry run are always the paths of the entries with a number
-- on each repetition.
pub write_entries-plan :
    (s : Backends) (encode : Bytes → Bytes) (es : List Imported) (force : Bool) (before d : Disk)
    → (write_entries s encode es force d).errors ≡ []
    → ((write_entries s encode es force d).written ≡ shown (plan s es before) es)
      × (map (λ p. p.planned_path) (plan s es before)
          ≡ deduplicate_paths (map (λ e. plan_path e (store_path e)) es))
unfolding write_entries plan deduplicate_paths
write_entries-plan s encode es force before d h =
    (write_from_written s encode force _ [] es d h, plan_from-deduplicate_from _ [] es)
