-- ===== src/Io/Writer.antt =====
-- Writers: the bytes written so far are passed along. What was written before an error stays.
use dust_devil.Base.{◌++◌}
use dust_devil.Io.{Bytes, Error, Outcome, ok, eof, err}

abbrev pub Writer : Type 0
Writer = Bytes → Outcome (Unit {0}) × Bytes

unfoldable pub continue : Outcome (Unit {0}) → Bytes → Writer → Outcome (Unit {0}) × Bytes
continue (ok u) out n = n out
continue eof out n = (eof, out)
continue (err e) out n = (err e, out)

infixl 5 ◌>>◌
unfoldable pub ◌>>◌ : Writer → Writer → Writer
unfolding continue
◌>>◌ m n out = let (r, out') = m out in continue r out' n

unfoldable pub done : Writer
done out = (ok tt, out)

unfoldable pub fail : Error → Writer
fail e out = (err e, out)

-- `AsyncWriteExt::write_all`.
unfoldable pub write_all : Bytes → Writer
write_all bs out = (ok tt, out ++ bs)
