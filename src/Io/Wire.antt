-- ===== src/Io/Wire.antt =====
-- When a writer and a reader fit: one rule for each way to build them, so that `search` walks the
-- two do blocks of a type together.
use dust_devil.Base.{ℕ, ◌≡◌, refl, [], ◌∷◌, ◌++◌, append-nil, append_assoc, length}
use dust_devil.Io.{Bytes, ok}
use dust_devil.Io.Reader.{Reader, ◌>>=◌, pure, take_byte, read_exact}
use dust_devil.Io.Writer.{Writer, ◌>>◌, done, write_all}

-- `w` succeeds and appends `bytes`; from these, whatever follows, `r` reads `a` and nothing more.
pub record Wire {A : Type 0} (w : Writer) (r : Reader A) (a : A) : Type 0 where
  pub bytes : Bytes
  pub writes : (out : Bytes) → w out ≡ (ok tt, out ++ bytes)
  pub reads : (rest : Bytes) → r (bytes ++ rest) ≡ ok (a, rest)

pub Wire-pure : {A : Type 0} (a : A) → Wire done (pure a) a
unfolding done pure
Wire-pure a = record { bytes = []; writes = λ out. rw append-nil; reads = λ rest. refl }

module _ {A B : Type 0} where
  pub Wire-bind :
      {v w : Writer} {r : Reader A} (f : A → Reader B) {a : A} {b : B}
      → Wire v r a
      → Wire w (f a) b
      → Wire (v >> w) (r >>= f) b
  unfolding ◌>>◌ ◌>>=◌
  Wire-bind f p q = record {
    bytes = p.bytes ++ q.bytes;
    writes = λ out. rw (p.writes, q.writes, append_assoc);
    reads = λ rest. rw (append_assoc, p.reads, q.reads);
  }

  -- A reader that goes on without reading.
  pub Wire-map :
      {w : Writer} {r : Reader A} (f : A → B) {a : A}
      → Wire w r a
      → Wire w (r >>= λ x. pure (f x)) (f a)
  unfolding ◌>>=◌ pure
  Wire-map f p = record { bytes = p.bytes; writes = p.writes; reads = λ rest. rw p.reads }

-- A value that its first part decides.
pub Wire-end :
    {A B : Type 0} {w : Writer} {r : Reader A} (f : A → Reader B) {a : A} {b : B}
    → Wire w r a
    → f a ≡ pure b
    → Wire w (r >>= f) b
unfolding ◌>>=◌
Wire-end f p e = record {
  bytes = p.bytes;
  writes = p.writes;
  reads = λ rest. rw (p.reads, e) (unfold pure in refl);
}

-- The same two rules for a type all of whose values travel, in the form that `search` applies: the
-- conclusion names the value.
module _ {A B : Type 0} {write : A → Writer} {read : Reader A}
    (fit : (a : A) → Wire (write a) read a) {w : Writer} (f : A → Reader B) (a : A) {b : B} where
  pub Wire-first : Wire w (f a) b → Wire (write a >> w) (read >>= f) b
  Wire-first p = Wire-bind f (fit a) p

module _ {A B : Type 0} {write : A → Writer} {read : Reader A}
    (fit : (a : A) → Wire (write a) read a) (f : A → Reader B) (a : A) {b : B} where
  pub Wire-last : f a ≡ pure b → Wire (write a) (read >>= f) b
  Wire-last e = Wire-end f (fit a) e

-- Bytes and the reader of exactly as many.
pub read_exact-append : (bs rest : Bytes) → read_exact (length bs) (bs ++ rest) ≡ ok (bs, rest)
unfolding read_exact
read_exact-append [] rest = refl
read_exact-append (b ∷ bs) rest = rw (read_exact-append bs rest)

pub read_exact_fit :
    (n : ℕ) (bs rest : Bytes) → length bs ≡ n → read_exact n (bs ++ rest) ≡ ok (bs, rest)
read_exact_fit n bs rest e = rw (← e) (read_exact-append bs rest)

pub Wire-bytes : (n : ℕ) (bs : Bytes) → length bs ≡ n → Wire (write_all bs) (read_exact n) bs
unfolding write_all
Wire-bytes n bs e = record {
  bytes = bs;
  writes = λ out. refl;
  reads = λ rest. read_exact_fit n bs rest e;
}

pub Wire-byte : (b : ℕ) → Wire (write_all (b ∷ [])) take_byte b
unfolding write_all take_byte
Wire-byte b = record { bytes = b ∷ []; writes = λ out. refl; reads = λ rest. refl }
