-- ===== src/Server/Loading/Laws.antt =====
-- `UserManager::from` of dust-devil/src/users.rs, over the bytes of a reader.
use mathlib.Core.Path.{subst}
use dust_devil.Base.{
  ℕ, ◌+◌, ◌^◌, ◌≤◌, ◌<◌, ◌≡◌, ap, Option, none, some, List, [], ◌∷◌, ◌++◌, length, ◌==◌, leb, arith,
  Bool-cases, inl, inr,
}
use dust_devil.Io.{Bytes, Text, Error}
use dust_devil.Utf8.{from_utf8, valid_up_to}
use dust_devil.Protocol.Users.{UsersLoadingError}
use dust_devil.Serialize.Containers.{Result, ok, err}
use dust_devil.Server.Users.{UserData, UserManager, new}
use dust_devil.Server.Users.Laws.{IsValid, new-IsValid}
use dust_devil.Server.UsersFile.{trim_start}
use dust_devil.Server.Startup.{read_line}
use dust_devil.Server.Startup.Laws.{load_user-IsValid, IsValidResult, refuse_empty-IsValid}
use dust_devil.Server.Lines.{
  buffer_capacity, Ended, finished, stopped, invalid_utf8, next_line, call_line, called, at_end,
  last_line,
}
use dust_devil.Server.Lines.Split.{split_from, each_called}
use dust_devil.Server.Lines.Laws.{process_lines_utf8-eq-each_called}
use dust_devil.Server.Loading.{line_read, load_line, after_lines, from}

length-split_from : (buf src : Bytes) → length (split_from buf src).0 ≤ length src
unfolding split_from
length-split_from buf [] = omega arith
length-split_from buf (b ∷ bs) = elim (Bool-cases (b == b'\n')) [
  | inl e ↦ rw e (omega (arith, length-split_from [] bs))
  | inr e ↦ rw e (omega (arith, length-split_from (buf ++ b ∷ []) bs))
]

-- Valid users after a line, and one administrator more at most.
ValidAfter : ℕ → Ended UserManager UsersLoadingError → Type 0
ValidAfter k (finished m) = IsValid m × (m.admin_count ≤ k)
ValidAfter k (stopped e) = Unit
ValidAfter k Ended.panicked = Unit

read-ValidAfter :
    (n : ℕ) (m : UserManager) (o : Option (Result (Option (Text × UserData)) UsersLoadingError))
    → m.admin_count + 1 < 2 ^ 32
    → IsValid m
    → ValidAfter (m.admin_count + 1) (called load_line n (line_read m o))
unfolding called ValidAfter
read-ValidAfter n m none b h = tt
read-ValidAfter n m (some (err e)) b h = tt
read-ValidAfter n m (some (ok u)) b h = load_user-IsValid u m b h

call_line-ValidAfter :
    (line : Bytes) (n : ℕ) (m : UserManager)
    → m.admin_count + 1 < 2 ^ 32
    → IsValid m
    → ValidAfter (m.admin_count + 1) (call_line load_line line n m)
unfolding call_line load_line ValidAfter
call_line-ValidAfter line n m b h = of_text (from_utf8 line)
  where
    of_text :
        (o : Option Text)
        → ValidAfter (m.admin_count + 1) (elim o [
          | some t ↦ called load_line n (load_line t n m)
          | none ↦ stopped (invalid_utf8 n (valid_up_to line + 1))
        ])
    of_text none = tt
    of_text (some t) = read-ValidAfter n m (read_line n (trim_start t 0)) b h

ValidEnd : Ended (ℕ × UserManager) UsersLoadingError → Type 0
ValidEnd (finished (n, m)) = IsValid m
ValidEnd (stopped e) = Unit
ValidEnd Ended.panicked = Unit

at_end-ValidEnd :
    (ends : Option Error) (rest : Bytes) (n : ℕ) (m : UserManager)
    → m.admin_count + 1 < 2 ^ 32
    → IsValid m
    → ValidEnd (at_end load_line ends rest n m)
unfolding at_end last_line ValidEnd ValidAfter
at_end-ValidEnd (some e) rest n m b h = tt
at_end-ValidEnd none [] n m b h = h
at_end-ValidEnd none (c ∷ rest) n m b h =
    finish (call_line load_line (c ∷ rest) n m) (call_line-ValidAfter (c ∷ rest) n m b h)
  where
    finish :
        (r : Ended UserManager UsersLoadingError)
        → ValidAfter (m.admin_count + 1) r
        → ValidEnd (elim r [
          | finished s' ↦ finished (next_line n, s')
          | stopped e ↦ stopped e
          | Ended.panicked ↦ Ended.panicked
        ])
    finish (finished s') v = v.0
    finish (stopped e) v = tt
    finish Ended.panicked v = tt

each_called-ValidEnd :
    (ends : Option Error) (n : ℕ) (m : UserManager) (lines : List Bytes) (rest : Bytes)
    → m.admin_count + length lines + 1 < 2 ^ 32
    → IsValid m
    → ValidEnd (each_called load_line ends n m lines rest)
unfolding each_called ValidEnd ValidAfter
each_called-ValidEnd ends n m [] rest b h = elim (Bool-cases (leb buffer_capacity (length rest))) [
  | inl e ↦ rw e tt
  | inr e ↦ rw e (at_end-ValidEnd ends rest n m (omega (arith, b)) h)
]
each_called-ValidEnd ends n m (line ∷ lines) rest b h =
    elim (Bool-cases (leb buffer_capacity (length line))) [
      | inl e ↦ rw e tt
      | inr e ↦ rw e (
          more (call_line load_line line n m) (call_line-ValidAfter line n m (omega (arith, b)) h)
            (λ m' v le.
              each_called-ValidEnd ends (next_line n) m' lines rest (omega (arith, b, le)) v))
    ]
  where
    more :
        (r : Ended UserManager UsersLoadingError)
        → ValidAfter (m.admin_count + 1) r
        → ((m' : UserManager)
            → IsValid m'
            → m'.admin_count ≤ m.admin_count + 1
            → ValidEnd (each_called load_line ends (next_line n) m' lines rest))
        → ValidEnd (elim r [
          | finished s' ↦ each_called load_line ends (next_line n) s' lines rest
          | stopped e ↦ stopped e
          | Ended.panicked ↦ Ended.panicked
        ])
    more (finished s') v ih = ih s' v.0 v.1
    more (stopped e) v ih = tt
    more Ended.panicked v ih = tt

after_lines-IsValid :
    (r : Ended (ℕ × UserManager) UsersLoadingError) → ValidEnd r → IsValidResult (after_lines r)
unfolding after_lines ValidEnd IsValidResult
after_lines-IsValid (finished (n, m)) h = refuse_empty-IsValid (some (ok m)) h
after_lines-IsValid (stopped e) h = tt
after_lines-IsValid Ended.panicked h = tt

-- `from` is what becomes of the lines.
pub from_lem :
    (sizes : ℕ → ℕ) (ends : Option Error) (fuel : ℕ) (src : Bytes)
    → length src < fuel
    → from sizes ends fuel src
      ≡ some (
          after_lines
            (each_called load_line ends 1 new (split_from [] src).0 (split_from [] src).1))
unfolding from
from_lem sizes ends fuel src h =
    ap (elim [ none ↦ none | some r ↦ some (after_lines r) ])
      (process_lines_utf8-eq-each_called load_line sizes ends fuel new src h)

-- Loading the users from a reader ends, with as many rounds as there are bytes and one, however the
-- bytes come in pieces; and where it gives users, and the bytes are fewer than the counter can
-- count, they are valid: one entry for each name, and the administrators counted rightly.
pub from-IsValid :
    (sizes : ℕ → ℕ) (ends : Option Error) (fuel : ℕ) (src : Bytes)
    → length src < fuel
    → length src + 1 < 2 ^ 32
    → (r : Option (Result UserManager UsersLoadingError)) × (from sizes ends fuel src ≡ some r)
      × ((m : UserManager) → r ≡ some (ok m) → IsValid m)
unfolding IsValidResult
from-IsValid sizes ends fuel src h b =
    let r = each_called load_line ends 1 new (split_from [] src).0 (split_from [] src).1 in
    (
      after_lines r,
      from_lem sizes ends fuel src h,
      λ m e. subst IsValidResult e (
          after_lines-IsValid r (
            each_called-ValidEnd ends 1 new (split_from [] src).0 (split_from [] src).1
              (omega (arith, b, length-split_from [] src)) new-IsValid)),
    )
