-- ===== src/Io/Pieces.antt =====
-- Reading in pieces: what one `read` of tokio gives.
use dust_devil.Base.{ℕ, zero, suc, ◌≤◌, ◌≡◌, refl, ap, [], ◌∷◌, ◌++◌, length, arith}
use dust_devil.Io.{Bytes}

-- `read` into a buffer of `max` bytes, where the socket has `n` bytes ready at most. At the end of
-- the input it gives no bytes.
unfoldable pub read_some : (n max : ℕ) → Bytes → Bytes × Bytes
read_some zero max src = ([], src)
read_some (suc n) zero src = ([], src)
read_some (suc n) (suc max) [] = ([], [])
read_some (suc n) (suc max) (b ∷ bs) = let r = read_some n max bs in (b ∷ r.0, r.1)

pub length-read_some : (n max : ℕ) (src : Bytes) → length (read_some n max src).0 ≤ max
unfolding read_some
length-read_some zero max src = omega arith
length-read_some (suc n) zero src = omega arith
length-read_some (suc n) (suc max) [] = omega arith
length-read_some (suc n) (suc max) (b ∷ bs) = omega (arith, length-read_some n max bs)

pub read_some-append :
    (n max : ℕ) (src : Bytes) → (read_some n max src).0 ++ (read_some n max src).1 ≡ src
unfolding read_some
read_some-append zero max src = refl
read_some-append (suc n) zero src = refl
read_some-append (suc n) (suc max) [] = refl
read_some-append (suc n) (suc max) (b ∷ bs) = ap (λ r. b ∷ r) (read_some-append n max bs)
