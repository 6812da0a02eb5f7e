-- ===== src/Io/Reader.antt =====
-- Readers: the bytes still to come are passed along; an error ends the reading.
use dust_devil.Base.{ℕ, zero, suc, [], ◌∷◌}
use dust_devil.Io.{Bytes, Error, Outcome, ok, eof, err}

abbrev pub Reader : Type 0 → Type 0
Reader A = Bytes → Outcome (A × Bytes)

unfoldable pub continue :
    {A B : Type 0} → Outcome (A × Bytes) → (A → Reader B) → Outcome (B × Bytes)
continue (ok (a, rest)) f = f a rest
continue eof f = eof
continue (err e) f = err e

infixl 5 ◌>>=◌
unfoldable pub ◌>>=◌ : {A B : Type 0} → Reader A → (A → Reader B) → Reader B
unfolding continue
◌>>=◌ m f src = continue (m src) f

unfoldable pub pure : {A : Type 0} → A → Reader A
pure a src = ok (a, src)

unfoldable pub fail : {A : Type 0} → Error → Reader A
fail e src = err e

-- `AsyncReadExt::read_u8`.
unfoldable pub take_byte : Reader ℕ
take_byte [] = eof
take_byte (b ∷ rest) = ok (b, rest)

-- `AsyncReadExt::read_exact` into a buffer of that length.
unfoldable pub read_exact : ℕ → Reader Bytes
unfolding ◌>>=◌ pure take_byte
read_exact zero = pure []
read_exact (suc n) = do b ← take_byte; bs ← read_exact n; pure (b ∷ bs)
