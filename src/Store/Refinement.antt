-- ===== src/Store/Refinement.antt =====
-- pkg/store/store.go against what a store promises: a map from clean names to secrets.
use binpass.Prelude.{
  ok_inj, tail_eq, some_inj, ℕ, Bool, false, List, [], ◌∷◌, ◌++◌, Option, none, some, Bytes, ◌==◌,
  bytes_eq, ==-eq, ==-same, if◌then◌else◌, Result, ok, err, ◌>>=◌, >>=-eq-ok, ◌≡◌, ◌≢◌, inl, inr,
  refl, subst, sym, ap, ◌∙◌, arith, All, length, length-append, Bool-cases, Option-cases,
}
use binpass.Prelude.Dict.{lookup, insert}
use binpass.Secret.{Secret}
use binpass.Paths.{rel}
use binpass.Storage.{Disk, FindError, dir_of, path_of, ext_of, first_file, find}
use binpass.Store.{
  Backend, Backends, StoreError, exts, backend_for, backend_for_new, lifted, or_error, get, target,
  target_of, write_at, set, no_recipients, encrypt_failed,
}
use binpass.Store.Target.{
  IsSound, find-ok, find-inside, backend_for-All, backend_for_new-known, Result-cases, lifted-ok,
  relative-ok,
}
use binpass.Store.Laws.{Apart, get-insert, get-insert_other}
use binpass.Store.Transfer.Single.{or_error-ok}

-- Backends whose extensions have one length, as `.gpg` and `.age` have.
abbrev pub Even : ℕ → List Backend → Type 0
Even n = All (λ b. length b.ext ≡ n)

-- Texts with ends of one length are equal only if what is in front of the ends is.
append_split : (p q a b : Bytes) → p ++ a ≡ q ++ b → length a ≡ length b → p ≡ q
append_split [] [] a b h l = refl
append_split [] (c ∷ q) a b h l = absurd (omega (arith, ap length h, length-append q b, l))
append_split (c ∷ p) [] a b h l = absurd (omega (arith, ap length h, length-append p a, l))
append_split (c ∷ p) (k ∷ q) a b h l = (let rest = append_split p q a b (tail_eq h) l in cc)

pub first_file-path :
    (n : ℕ) (p path : Bytes) (bs : List Backend) (d : Disk)
    → Even n bs
    → first_file p (exts bs) d ≡ some path
    → (e : Bytes) × (path ≡ p ++ e) × (length e ≡ n)
unfolding first_file
first_file-path n p path [] d u h = cc
first_file-path n p path (b ∷ bs) d (l, u) h = elim (Option-cases (lookup (p ++ b.ext) d)) [
  | inl free ↦ first_file-path n p path bs d u (rw free at h)
  | inr (c, there) ↦ (b.ext, sym (some_inj (rw there at h)), l)
]

target_of_ok-path :
    (s : Backends) (n : ℕ) (name q path : Bytes) (b : Backend) (d : Disk)
    → Even n s.all
    → find name (exts s.all) d ≡ ok q
    → target_of s name d (ok q) ≡ ok (path, b)
    → (p : Bytes) × (e : Bytes) × (rel name ≡ some p) × (path ≡ p ++ e) × (length e ≡ n)
unfolding target_of
target_of_ok-path s n name q path b d even f t =
    let (k, known, pair) = >>=-eq-ok (backend_for s.all (ext_of q)) (λ k. ok (q, k)) t in
    let (p, inside, there) = find-ok name (exts s.all) d q f in
    let (e, eq, l) = first_file-path n p q s.all d even there in
    (p, e, inside, sym (ap (λ x. x.0) (ok_inj pair)) ∙ eq, l)

target_of_err-path :
    (s : Backends) (n : ℕ) (name path : Bytes) (x : FindError) (b : Backend) (d : Disk)
    → IsSound s
    → Even n s.all
    → target_of s name d (err x) ≡ ok (path, b)
    → (p : Bytes) × (e : Bytes) × (rel name ≡ some p) × (path ≡ p ++ e) × (length e ≡ n)
unfolding target_of path_of
target_of_err-path s n name path x b d sound even t =
    let (k, new, rest) =
      >>=-eq-ok (backend_for_new s name d) (λ k. lifted (path_of name k.ext) >>= λ q. ok (q, k))
        t in
    let (q, there, pair) = >>=-eq-ok (lifted (path_of name k.ext)) (λ q. ok (q, k)) rest in
    let (p, inside, at_p) =
      relative-ok (rel name) (λ p. ok (p ++ k.ext)) q (lifted-ok (path_of name k.ext) q there) in
    (
      p,
      k.ext,
      inside,
      sym (ok_inj at_p ∙ ap (λ x. x.0) (ok_inj pair)),
      backend_for-All (λ b. length b.ext ≡ n) s.all k.ext k even
          (backend_for_new-known s name d k sound new),
    )

-- A target lies under the clean name.
target-path :
    (s : Backends) (n : ℕ) (name path : Bytes) (b : Backend) (d : Disk)
    → IsSound s
    → Even n s.all
    → target s name d ≡ ok (path, b)
    → (p : Bytes) × (e : Bytes) × (rel name ≡ some p) × (path ≡ p ++ e) × (length e ≡ n)
unfolding target
target-path s n name path b d sound even h = elim (Result-cases (find name (exts s.all) d)) [
  | inl (q, e) ↦ target_of_ok-path s n name q path b d even e (ap (target_of s name d) (sym e) ∙ h)
  | inr (x, e) ↦
      target_of_err-path s n name path x b d sound even (ap (target_of s name d) (sym e) ∙ h)
]

abbrev pub names : Bytes → Option Bytes → Bool
names p none = false
names p (some q) = q == p

-- What a sequence of writes makes of the secret under a clean name.
pub expected : Result StoreError Secret → Bytes → List (Bytes × Secret) → Result StoreError Secret
expected old p [] = old
expected old p ((name, sec) ∷ writes) =
    expected (if names p (rel name) then ok sec else old) p writes

unfoldable pub set_all : Backends → List (Bytes × Secret) → Disk → Result StoreError Disk
set_all s [] d = ok d
set_all s ((name, sec) ∷ writes) d = set s name sec d >>= set_all s writes

pub apart-exts :
    (n : ℕ) (p q e : Bytes) (bs : List Backend)
    → Even n bs
    → length e ≡ n
    → q ≢ p
    → All (λ x. q ++ x ≢ p ++ e) (exts bs)
apart-exts n p q e [] u l ne = tt
apart-exts n p q e (b ∷ bs) (k, u) l ne =
    ((λ h. ne (append_split q p b.ext e h (k ∙ sym l))), apart-exts n p q e bs u l ne)

pub get-rel :
    (s : Backends) (a b p : Bytes) (d : Disk)
    → rel a ≡ some p
    → rel b ≡ some p
    → get s a d ≡ get s b d
unfolding get
get-rel s a b p d at_a at_b =
    rw (find-inside a (exts s.all) d p at_a, find-inside b (exts s.all) d p at_b) refl

-- A write is read under its clean name, and nowhere else.
pub set-expected :
    (s : Backends) (n : ℕ) (name other p : Bytes) (sec : Secret) (d e : Disk)
    → IsSound s
    → Even n s.all
    → rel other ≡ some p
    → set s name sec d ≡ ok e
    → get s other e ≡ (if names p (rel name) then ok sec else get s other d)
unfolding set write_at Apart
set-expected s n name other p sec d e sound even inside h =
    let ((path, b), t, h1) = >>=-eq-ok (target s name d) (λ x. write_at x.1 x.0 sec d) h in
    let (rcp, r, h2) =
      >>=-eq-ok (or_error no_recipients (b.recipients d (dir_of path)))
        (λ rcp.
          or_error encrypt_failed (b.encrypt sec.raw rcp) >>= λ content. ok (insert path content d))
        h1 in
    let (content, en, h3) =
      >>=-eq-ok (or_error encrypt_failed (b.encrypt sec.raw rcp))
        (λ content. ok (insert path content d)) h2 in
    let (q, x, inside_q, path_eq, l) = target-path s n name path b d sound even t in
    let wrote = ok_inj h3 in
    elim (Bool-cases (q == p)) [
      | inl same ↦
          let at_p = inside_q ∙ ap some (==-eq q p same) in
          rw (inside_q, same)
            (get-rel s other name p e inside at_p
              ∙ ap (get s name) (sym wrote)
              ∙ get-insert s name path content sec b rcp d sound t
                  (or_error-ok encrypt_failed (b.encrypt sec.raw rcp) content en))
      | inr differ ↦
          let apart =
            apart-exts n q p x s.all even l
              (λ eq. (let y = ==-same p in let z = ap (λ k. k == p) (sym eq) in cc)) in
          let here = subst (λ y. Apart (exts s.all) y (some p)) (sym path_eq) apart in
          rw (inside_q, differ)
            (ap (get s other) (sym wrote)
              ∙ get-insert_other s other path content d
                  (subst (Apart (exts s.all) path) (sym inside) here))
    ]

-- The store implements a map from clean names to secrets: after any sequence of writes that all
-- succeed, a name is read as the last secret that was written under its clean form, and as before
-- if there is none. The backends decrypt what they have encrypted, are told apart by their
-- extensions, and the extensions have one length.
pub set_all_refines :
    (s : Backends) (n : ℕ) (name p : Bytes) (writes : List (Bytes × Secret)) (d e : Disk)
    → IsSound s
    → Even n s.all
    → rel name ≡ some p
    → set_all s writes d ≡ ok e
    → get s name e ≡ expected (get s name d) p writes
unfolding set_all expected
set_all_refines s n name p [] d e sound even inside h = ap (get s name) (sym (ok_inj h))
set_all_refines s n name p ((other, sec) ∷ writes) d e sound even inside h =
    let (mid, first, rest) = >>=-eq-ok (set s other sec d) (set_all s writes) h in
    set_all_refines s n name p writes mid e sound even inside rest
    ∙ ap (λ r. expected r p writes)
        (set-expected s n other name p sec d mid sound even inside first)
