-- ===== src/Server/Loading/Lines.antt =====
-- The lines that `save_to` of dust-devil/src/users.rs writes, read again one by one.
use mathlib.Core.Path.{subst}
use dust_devil.Base.{
  ℕ, ◌+◌, ◌%◌, ◌^◌, ◌≤◌, ◌<◌, ◌≡◌, ◌≢◌, refl, sym, ap, ◌∙◌, false, none, some, List, [], ◌∷◌, ◌++◌,
  append_assoc, append-nil, length, length-append, arith, All, All-append,
}
use dust_devil.Io.{Bytes, Text}
use dust_devil.Utf8.{is_whitespace, as_bytes, byte_len, valid_up_to, encode_char}
use dust_devil.Protocol.Users.{UserRole, admin, regular, into_role_char, escape_char}
use dust_devil.Server.Users.{UserData, UserManager}
use dust_devil.Server.UsersFile.{trim_start, save_user, escape_bytes}
use dust_devil.Server.UsersFile.SaveLoad.{
  IsStorable, line_of, from_utf8-save_user, parse_line_into_user-save_user_iff, unescape_iff,
}
use dust_devil.Server.Startup.{load_user, read_line}
use dust_devil.Server.Lines.{
  buffer_capacity, finished, stopped, invalid_utf8, next_line, call_line, called, at_end, last_line,
}
use dust_devil.Server.Lines.Split.{split_from, each_called}
use dust_devil.Server.Loading.{line_read, load_line, save_users}

abbrev NotBreak : ℕ → Type 0
NotBreak b = b ≢ b'\n'

-- A user that keeps through the file: one that it can hold, with no line break in the name or the
-- password and no backslash in the password.
pub record Keeps (name : Text) (user : UserData) : Type 0 where
  pub storable : IsStorable name user
  pub name_line : All (λ c. c ≢ b'\n') name
  pub password_line : All (λ c. c ≢ b'\n') user.password
  pub plain : All (λ c. c ≢ escape_char) user.password

encode_char-NotBreak : (c : ℕ) → NotBreak c → All NotBreak (encode_char c)
unfolding encode_char
encode_char-NotBreak c h = ground (arith, h)

as_bytes-NotBreak : (s : Text) → All NotBreak s → All NotBreak (as_bytes s)
unfolding as_bytes
as_bytes-NotBreak [] h = tt
as_bytes-NotBreak (c ∷ s) h =
    All-append NotBreak (encode_char c) (as_bytes s) (encode_char-NotBreak c h.0)
      (as_bytes-NotBreak s h.1)

escape_bytes-NotBreak : (bs : Bytes) → All NotBreak bs → All NotBreak (escape_bytes bs)
unfolding escape_bytes
escape_bytes-NotBreak [] h = tt
escape_bytes-NotBreak (b ∷ bs) h = ground (arith, h.0, escape_bytes-NotBreak bs h.1)

role_facts :
    (r : UserRole) → (into_role_char r % 2 ^ 8 ≢ b'\n') × (is_whitespace (into_role_char r) ≡ false)
unfolding into_role_char
role_facts admin = (ground arith, refl)
role_facts regular = (ground arith, refl)

pub save_user-NotBreak :
    (name : Text) (u : UserData) → Keeps name u → All NotBreak (save_user (name, u))
unfolding save_user
save_user-NotBreak name u k = (
  (role_facts u.role).0,
  All-append NotBreak (escape_bytes (as_bytes name)) (b':' ∷ as_bytes u.password)
      (escape_bytes-NotBreak (as_bytes name) (as_bytes-NotBreak name k.name_line))
      (ground arith, as_bytes-NotBreak u.password k.password_line),
)

length-escape_bytes : (bs : Bytes) → length (escape_bytes bs) ≤ length bs + length bs
unfolding escape_bytes
length-escape_bytes [] = omega arith
length-escape_bytes (b ∷ bs) = ground (arith, length-escape_bytes bs)

save_user_fits :
    (name : Text) (u : UserData) → Keeps name u → length (save_user (name, u)) < buffer_capacity
unfolding save_user byte_len
save_user_fits name u k = omega (
  arith,
  length-append (escape_bytes (as_bytes name)) (b':' ∷ as_bytes u.password),
  length-escape_bytes (as_bytes name),
  k.storable.name_fits,
  subst (λ p. byte_len p ≤ 255) ((unescape_iff u.password).1 k.plain) k.storable.password_fits,
)

pub split_from-line :
    (buf w rest : Bytes) → All NotBreak w → split_from buf (w ++ rest) ≡ split_from (buf ++ w) rest
unfolding split_from
split_from-line buf [] rest h = ap (λ b. split_from b rest) (sym (append-nil buf))
split_from-line buf (b ∷ w) rest h =
    ground (arith, h.0, split_from-line (buf ++ b ∷ []) w rest h.1, append_assoc buf (b ∷ []) w)

trim-line_of :
    (name : Text) (u : UserData) → trim_start (line_of name u) 0 ≡ some (line_of name u, 0)
unfolding trim_start
trim-line_of name u = rw (role_facts u.role).1

-- One line of the file.
call_line-save_user :
    (name : Text) (u : UserData) (n : ℕ) (m : UserManager)
    → Keeps name u
    → call_line load_line (save_user (name, u)) n m ≡ finished (load_user (some (name, u)) m)
unfolding call_line called load_line read_line
call_line-save_user name u n m k =
    let valid = from_utf8-save_user name u k.storable in
    ap
      (elim [
        | some t ↦ called load_line n (load_line t n m)
        | none ↦ stopped (invalid_utf8 n (valid_up_to (save_user (name, u)) + 1))
      ])
      valid
    ∙ ap (λ o. called load_line n (line_read m (read_line n o))) (trim-line_of name u)
    ∙ ap (λ o. called load_line n (line_read m (some o)))
        ((parse_line_into_user-save_user_iff name u n 0 (line_of name u) k.storable valid).1
          k.plain)

abbrev pub load_all : List (Text × UserData) → UserManager → UserManager
load_all [] m = m
load_all (x ∷ us) m = load_all us (load_user (some x) m)

abbrev pub lines_after : ℕ → List (Text × UserData) → ℕ
lines_after n [] = n
lines_after n (x ∷ us) = lines_after (next_line n) us

abbrev pub AllKeep : List (Text × UserData) → Type 0
AllKeep = All (λ x. Keeps x.0 x.1)

given : (x : Text × UserData) → 0 < length (save_user x)
unfolding save_user
given x = omega arith

each_called-one :
    (w : Bytes) (n : ℕ) (m m' : UserManager)
    → length w < buffer_capacity
    → 0 < length w
    → call_line load_line w n m ≡ finished m'
    → each_called load_line none n m [] w ≡ finished (next_line n, m')
unfolding each_called at_end last_line
each_called-one [] n m m' h g e = absurd (omega arith)
each_called-one (b ∷ w) n m m' h g e = ground (arith, h, e)

each_called-more :
    (w : Bytes) (n : ℕ) (m m' : UserManager) (lines : List Bytes) (rest : Bytes)
    → length w < buffer_capacity
    → call_line load_line w n m ≡ finished m'
    → each_called load_line none n m (w ∷ lines) rest
      ≡ each_called load_line none (next_line n) m' lines rest
unfolding each_called
each_called-more w n m m' lines rest h e = ground (arith, h, e)

-- The whole file, from a user on.
pub each_called-save_users :
    (x : Text × UserData) (us : List (Text × UserData)) (n : ℕ) (m : UserManager)
    → Keeps x.0 x.1
    → AllKeep us
    → let parts = split_from (save_user x) (save_users false us) in
      each_called load_line none n m parts.0 parts.1
      ≡ finished (lines_after n (x ∷ us), load_all (x ∷ us) m)
unfolding split_from save_users
each_called-save_users x [] n m k ks =
    each_called-one (save_user x) n m (load_user (some x) m) (save_user_fits x.0 x.1 k) (given x)
      (call_line-save_user x.0 x.1 n m k)
each_called-save_users x (y ∷ us) n m k ks =
    each_called-more (save_user x) n m (load_user (some x) m) _ _ (save_user_fits x.0 x.1 k)
      (call_line-save_user x.0 x.1 n m k)
    ∙ ap (λ parts. each_called load_line none (next_line n) (load_user (some x) m) parts.0 parts.1)
        (split_from-line [] (save_user y) (save_users false us) (save_user-NotBreak y.0 y.1 ks.0))
    ∙ each_called-save_users y us (next_line n) (load_user (some x) m) ks.0 ks.1
