-- ===== src/Server/Socks/Domain.antt =====
-- The domain name of a socks5 request (dust-devil/src/utils/chunk_reader.rs), which is read in
-- pieces of whatever size the socket gives.
use dust_devil.Base.{
  ℕ, zero, suc, ◌-◌, ◌≤◌, ◌<◌, ◌≡◌, refl, sym, Bool, ◌&&◌, ◌||◌, Option, none, some, [], ◌∷◌, ◌++◌,
  length, leb, ◌==◌, if◌then◌else◌, arith, append_assoc, append-nil,
}
use dust_devil.Io.Pieces.{read_some}
use dust_devil.Io.{Bytes, Text, text, ErrorKind, error_new, Outcome, ok, eof, err, show_u8}

-- `c.is_ascii_alphanumeric() || c == b'-' || c == b'.'`
abbrev pub is_domain_byte : ℕ → Bool
is_domain_byte c =
    (leb 48 c && leb c 57)
    || (leb 65 c && leb c 90)
    || (leb 97 c && leb c 122)
    || (c == b'-')
    || (c == b'.')

-- The first byte that no domain name has.
unfoldable pub first_invalid : Bytes → Option ℕ
first_invalid [] = none
first_invalid (c ∷ bs) = let rest = first_invalid bs in if is_domain_byte c then rest else some c

abbrev pub invalid_byte : ℕ → Outcome (Bytes × Bytes)
invalid_byte c =
    err (
      error_new ErrorKind.invalid_data
        (text "Domainname contains invalid character: " ++ show_u8 c))

-- The `while` loop, for `missing` bytes behind those of `buf`. `sizes` are the bytes, less one,
-- that each read has ready. `none` where the fuel does not last.
unfoldable pub read_domain_loop :
    (sizes : ℕ → ℕ) (fuel missing : ℕ) → (buf : Bytes) → Bytes → Option (Outcome (Bytes × Bytes))
unfolding read_some first_invalid
read_domain_loop sizes fuel zero buf src = some (ok (buf, src))
read_domain_loop sizes zero (suc m) buf src = none
read_domain_loop sizes (suc fuel) (suc m) buf src =
    let got = read_some (suc (sizes fuel)) (suc m) src in
    elim (first_invalid got.0) [
      | some c ↦ some (invalid_byte c)
      | none ↦ read_domain_loop sizes fuel (suc m - length got.0) (buf ++ got.0) got.1
    ]

unfoldable pub read_domainname :
    (sizes : ℕ → ℕ) (fuel : ℕ) → Bytes → Option (Outcome (Text × Bytes))
unfolding read_domain_loop
read_domainname sizes fuel [] = some eof
read_domainname sizes fuel (n ∷ src) =
    let rest = read_domain_loop sizes fuel n [] src in
    if n == 0
    then some (err (error_new ErrorKind.invalid_data (text "Domainname length cannot be 0")))
    else rest

-- The same byte by byte, without pieces: `none` where the input ends too early.
unfoldable pub domain_bytes :
    (missing : ℕ) → (buf : Bytes) → Bytes → Option (Outcome (Bytes × Bytes))
domain_bytes zero buf src = some (ok (buf, src))
domain_bytes (suc m) buf [] = none
domain_bytes (suc m) buf (b ∷ bs) =
    let rest = domain_bytes m (buf ++ b ∷ []) bs in
    if is_domain_byte b then rest else some (invalid_byte b)

-- Byte by byte, a piece can be taken at once.
domain_bytes-piece :
    (n m : ℕ) (buf src : Bytes)
    → let got = read_some n m src in
      domain_bytes m buf src ≡ elim (first_invalid got.0) [
        | some c ↦ some (invalid_byte c)
        | none ↦ domain_bytes (m - length got.0) (buf ++ got.0) got.1
      ]
unfolding read_some first_invalid domain_bytes
domain_bytes-piece zero m buf src =
    let p : m ≡ m - 0 = omega arith in λ i. domain_bytes (p i) (sym (append-nil buf) i) src
domain_bytes-piece (suc n) zero buf src = λ i. some (ok (sym (append-nil buf) i, src))
domain_bytes-piece (suc n) (suc m) buf [] =
    let p : suc m ≡ suc m - 0 = omega arith in λ i. domain_bytes (p i) (sym (append-nil buf) i) []
domain_bytes-piece (suc n) (suc m) buf (b ∷ bs) =
    let got = read_some n m bs in
    let p : m - length got.0 ≡ suc m - suc (length got.0) = omega arith in
    ground (arith, p, append_assoc buf (b ∷ []) got.0, domain_bytes-piece n m (buf ++ b ∷ []) bs)

-- At the end of the input the loop never ends.
loop_at_end :
    (sizes : ℕ → ℕ) (fuel missing : ℕ) (buf : Bytes)
    → 0 < missing
    → read_domain_loop sizes fuel missing buf [] ≡ none
unfolding read_domain_loop read_some first_invalid
loop_at_end sizes fuel zero buf h = ground (arith, h)
loop_at_end sizes zero (suc m) buf h = refl
loop_at_end sizes (suc fuel) (suc m) buf h =
    loop_at_end sizes fuel (suc m - 0) (buf ++ []) (omega arith)

-- However the socket cuts the name into pieces, the loop takes what stands there byte by byte: with
-- a unit of fuel for each byte, or more, it gives the name or the error, and it never ends where
-- the input ends before the name does.
pub read_domain_loop_lem :
    (sizes : ℕ → ℕ) (fuel missing : ℕ) (buf src : Bytes)
    → missing ≤ fuel
    → read_domain_loop sizes fuel missing buf src ≡ domain_bytes missing buf src
unfolding read_domain_loop domain_bytes read_some
read_domain_loop_lem sizes fuel zero buf src h = refl
read_domain_loop_lem sizes zero (suc m) buf src h = ground (arith, h)
read_domain_loop_lem sizes (suc fuel) (suc m) buf [] h =
    loop_at_end sizes (suc fuel) (suc m) buf (omega arith)
read_domain_loop_lem sizes (suc fuel) (suc m) buf (b ∷ bs) h =
    let got = read_some (suc (sizes fuel)) (suc m) (b ∷ bs) in
    let rest =
      read_domain_loop_lem sizes fuel (suc m - length got.0) (buf ++ got.0) got.1
        (omega (arith, h)) in
    let piece = domain_bytes-piece (suc (sizes fuel)) (suc m) buf (b ∷ bs) in
    ground (arith, rest, piece)
