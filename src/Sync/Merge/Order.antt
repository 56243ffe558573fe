-- ===== src/Sync/Merge/Order.antt =====
-- pkg/sync/merge.go: the order of paths by which a plan is sorted.
use binpass.Prelude.{true, false, [], ◌∷◌, Bytes, ◌≡◌, ◌⊎◌, inl, inr, refl, arith}
use binpass.Sync.Merge.{bytes_ltb}

pub bytes_ltb_irrefl : (a : Bytes) → bytes_ltb a a ≡ false
unfolding bytes_ltb
bytes_ltb_irrefl [] = refl
bytes_ltb_irrefl (c ∷ a) = ground (arith, bytes_ltb_irrefl a)

pub bytes_ltb_trans :
    (a b c : Bytes) → bytes_ltb a b ≡ true → bytes_ltb b c ≡ true → bytes_ltb a c ≡ true
unfolding bytes_ltb
bytes_ltb_trans [] (y ∷ b) (z ∷ c) h k = refl
bytes_ltb_trans (x ∷ a) (y ∷ b) (z ∷ c) h k = ground (arith, bytes_ltb_trans a b c)
bytes_ltb_trans _ [] _ h k = cc
bytes_ltb_trans _ _ [] h k = cc

-- Of two paths one is smaller, or they are one.
pub bytes_ltb_total : (a b : Bytes) → (bytes_ltb a b ≡ true) ⊎ (bytes_ltb b a ≡ true) ⊎ (a ≡ b)
unfolding bytes_ltb
bytes_ltb_total [] [] = inr (inr refl)
bytes_ltb_total [] (d ∷ b) = inl refl
bytes_ltb_total (c ∷ a) [] = inr (inl refl)
bytes_ltb_total (c ∷ a) (d ∷ b) = ground (arith, bytes_ltb_total a b)
