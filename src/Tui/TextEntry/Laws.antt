-- ===== src/Tui/TextEntry/Laws.antt =====
-- The line that is edited (sandstorm/src/tui/elements/text_entry.rs) against characters before and behind
-- a cursor.
use mathlib.Core.List.{reverse, reverse-append, reverse-reverse}
use dust_devil.Base.{
  ℕ, ◌+◌, ◌-◌, ◌<◌, ◌≡◌, refl, sym, ap, ◌∙◌, Bool, true, false, not, some, [], ◌∷◌, ◌++◌,
  append_assoc, length, length-append, ◌==◌, if◌then◌else◌, arith, Bool-cases, inl, inr,
}
use dust_devil.Io.{Text}
use dust_devil.Utf8.{byte_len, as_bytes}
use dust_devil.Utf8.RoundTrip.{byte_len-append, byte_len-cons}
use dust_devil.Tui.TextEntry.{
  CursorPosition, TextEntry, split_bytes, drain, count_while, drop_while, remove_left, remove_right,
  move_left, move_right,
}

-- The characters before the cursor, the last one first, and those behind it.
pub record Zipper : Type 0 where
  pub left : Text
  pub right : Text

abbrev pub zipper : Text → Text → Zipper
zipper l r = record { left = l; right = r }

-- The entry with these characters and this cursor.
abbrev pub entry_of : (max_length : ℕ) → Zipper → TextEntry
entry_of m z = record {
  text = reverse z.left ++ z.right;
  text_len_chars = length z.left + length z.right;
  max_length = m;
  cursor = some (record { index_bytes = byte_len (reverse z.left); index_chars = length z.left });
}

-- The characters that a skip takes, and those that it leaves.
unfoldable pub take_while : (ℕ → Bool) → Text → Text
take_while p [] = []
take_while p (c ∷ s) = let rest = take_while p s in if p c then c ∷ rest else []

pub byte_len_nil : byte_len [] ≡ 0
unfolding byte_len as_bytes
byte_len_nil = refl

pub byte_len-first : (c : ℕ) (s : Text) → byte_len (c ∷ s) ≡ byte_len (c ∷ []) + byte_len s
byte_len-first c s = byte_len-append (c ∷ []) s

pub count_while-take_while :
    (p : ℕ → Bool) (s : Text)
    → count_while p s ≡ (byte_len (take_while p s), length (take_while p s))
unfolding count_while take_while
count_while-take_while p [] = rw byte_len_nil
count_while-take_while p (c ∷ s) = elim (Bool-cases (p c)) [
  | inl e ↦ ground (arith, e, count_while-take_while p s, byte_len-first c (take_while p s))
  | inr e ↦ ground (arith, e, byte_len_nil)
]

pub take_while-drop_while : (p : ℕ → Bool) (s : Text) → take_while p s ++ drop_while p s ≡ s
unfolding take_while drop_while
take_while-drop_while p [] = refl
take_while-drop_while p (c ∷ s) = ground (arith, take_while-drop_while p s)

pub split_bytes-append : (a b : Text) → split_bytes (byte_len a) (a ++ b) ≡ some (a, b)
unfolding split_bytes
split_bytes-append [] [] = ground (arith, byte_len_nil)
split_bytes-append [] (c ∷ b) = ground (arith, byte_len_nil)
split_bytes-append (c ∷ a) b =
    ground (arith, byte_len-first c a, byte_len-cons c [], split_bytes-append a b)

pub byte_len-reverse : (s : Text) → byte_len (reverse s) ≡ byte_len s
byte_len-reverse [] = refl
byte_len-reverse (c ∷ s) =
    ap byte_len (reverse-append (c ∷ []) s)
    ∙ byte_len-append (reverse s) (c ∷ [])
    ∙ omega (arith, byte_len-reverse s, byte_len-first c s)

pub length-reverse : (s : Text) → length (reverse s) ≡ length s
length-reverse [] = refl
length-reverse (c ∷ s) =
    ap length (reverse-append (c ∷ []) s)
    ∙ length-append (reverse s) (c ∷ [])
    ∙ omega (arith, length-reverse s)

pub ne_zero : (n : ℕ) → 0 < n → (n == 0) ≡ false
ne_zero n h = ground (arith, h)

drain-append :
    (a x r : Text) → drain (byte_len a) (byte_len (a ++ x)) ((a ++ x) ++ r) ≡ some (a ++ r)
unfolding drain
drain-append a x r =
    ground (arith, split_bytes-append (a ++ x) r, split_bytes-append a (x ++ r), append_assoc a x r)

-- An entry by its fields.
abbrev pub entry : (max_length : ℕ) → Text → (len bytes chars : ℕ) → TextEntry
entry m t n b c = record {
  text = t;
  text_len_chars = n;
  max_length = m;
  cursor = some (record { index_bytes = b; index_chars = c });
}

pub entry_eq :
    (m : ℕ) (t u : Text) (n k b d c e : ℕ)
    → t ≡ u
    → n ≡ k
    → b ≡ d
    → c ≡ e
    → entry m t n b c ≡ entry m u k d e
entry_eq m t u n k b d c e p q r s = rw (p, q, r, s)

abbrev pub cursor_of : Zipper → CursorPosition
cursor_of z = record { index_bytes = byte_len (reverse z.left); index_chars = length z.left }

abbrev pub is_nil : Text → Bool
is_nil [] = true
is_nil (c ∷ s) = false

-- The bytes of the characters before the cursor, without those that are skipped.
bytes_left : (w l : Text) → byte_len (reverse (w ++ l)) - byte_len w ≡ byte_len (reverse l)
bytes_left w l = omega (arith, byte_len-reverse (w ++ l), byte_len-reverse l, byte_len-append w l)

chars_left : (w l : Text) → length (w ++ l) - length w ≡ length l
chars_left w l = omega (arith, length-append w l)

drain_left :
    (w l r : Text)
    → drain
        (byte_len (reverse (w ++ l)) - byte_len w)
        (byte_len (reverse (w ++ l)))
        (reverse (w ++ l) ++ r)
      ≡ some (reverse l ++ r)
drain_left w l r = rw (bytes_left w l, reverse-append w l) (drain-append (reverse l) (reverse w) r)

drain_right :
    (l w r : Text)
    → drain (byte_len (reverse l)) (byte_len (reverse l) + byte_len w) (reverse l ++ (w ++ r))
      ≡ some (reverse l ++ r)
drain_right l w r =
    rw (← byte_len-append (reverse l) w, ← append_assoc (reverse l) w r)
      (drain-append (reverse l) w r)

-- The characters that the cursor passes stand on its other side, and the text is the same.
text_left : (w l r : Text) → reverse (w ++ l) ++ r ≡ reverse l ++ (reverse w ++ r)
text_left w l r = ap (λ t. t ++ r) (reverse-append w l) ∙ append_assoc (reverse l) (reverse w) r

pub text_right : (l w r : Text) → reverse l ++ (w ++ r) ≡ reverse (reverse w ++ l) ++ r
text_right l w r =
    sym (append_assoc (reverse l) w r)
    ∙ ap (λ t. t ++ r)
        (ap (λ t. reverse l ++ t) (sym (reverse-reverse w)) ∙ sym (reverse-append (reverse w) l))

module _ (is_alphanumeric : ℕ → Bool) where
  remove_left_more :
      (m : ℕ) (w l r : Text)
      → 0 < byte_len w
      → remove_left is_alphanumeric
          (byte_len w, length w)
          (cursor_of (zipper (w ++ l) r))
          (entry_of m (zipper (w ++ l) r))
        ≡ some (true, entry_of m (zipper l r))
  unfolding remove_left
  remove_left_more m w l r h =
      rw (ne_zero (byte_len w) h, drain_left w l r)
        (ap (λ x. some (true, x))
          (entry_eq m _ _ _ _ _ _ _ _ refl (omega (arith, length-append w l)) (bytes_left w l)
            (chars_left w l)))

  pub remove_left_lem :
      (m : ℕ) (w l r : Text)
      → remove_left is_alphanumeric
          (byte_len w, length w)
          (cursor_of (zipper (w ++ l) r))
          (entry_of m (zipper (w ++ l) r))
        ≡ some (not (is_nil w), entry_of m (zipper l r))
  unfolding remove_left
  remove_left_lem m [] l r = rw byte_len_nil
  remove_left_lem m (c ∷ w) l r = remove_left_more m (c ∷ w) l r (omega (arith, byte_len-cons c w))

  remove_right_more :
      (m : ℕ) (l w r : Text)
      → 0 < byte_len w
      → remove_right is_alphanumeric
          (byte_len w, length w)
          (cursor_of (zipper l (w ++ r)))
          (entry_of m (zipper l (w ++ r)))
        ≡ some (true, entry_of m (zipper l r))
  unfolding remove_right
  remove_right_more m l w r h =
      rw (ne_zero (byte_len w) h, drain_right l w r)
        (ap (λ x. some (true, x))
          (entry_eq m _ _ _ _ _ _ _ _ refl (omega (arith, length-append w r)) refl refl))

  pub remove_right_lem :
      (m : ℕ) (l w r : Text)
      → remove_right is_alphanumeric
          (byte_len w, length w)
          (cursor_of (zipper l (w ++ r)))
          (entry_of m (zipper l (w ++ r)))
        ≡ some (not (is_nil w), entry_of m (zipper l r))
  unfolding remove_right
  remove_right_lem m l [] r = rw byte_len_nil
  remove_right_lem m l (c ∷ w) r =
      remove_right_more m l (c ∷ w) r (omega (arith, byte_len-cons c w))

  move_left_more :
      (m : ℕ) (w l r : Text)
      → 0 < byte_len w
      → move_left is_alphanumeric
          (byte_len w, length w)
          (cursor_of (zipper (w ++ l) r))
          (entry_of m (zipper (w ++ l) r))
        ≡ some (false, entry_of m (zipper l (reverse w ++ r)))
  unfolding move_left
  move_left_more m w l r h = rw (ne_zero (byte_len w) h) (
      ap (λ x. some (false, x))
        (entry_eq m _ _ _ _ _ _ _ _ (text_left w l r)
          (omega (arith, length-append w l, length-append (reverse w) r, length-reverse w))
          (bytes_left w l) (chars_left w l)))

  pub move_left_lem :
      (m : ℕ) (w l r : Text)
      → move_left is_alphanumeric
          (byte_len w, length w)
          (cursor_of (zipper (w ++ l) r))
          (entry_of m (zipper (w ++ l) r))
        ≡ some (false, entry_of m (zipper l (reverse w ++ r)))
  unfolding move_left
  move_left_lem m [] l r = rw byte_len_nil
  move_left_lem m (c ∷ w) l r = move_left_more m (c ∷ w) l r (omega (arith, byte_len-cons c w))

  move_right_more :
      (m : ℕ) (l w r : Text)
      → 0 < byte_len w
      → move_right is_alphanumeric
          (byte_len w, length w)
          (cursor_of (zipper l (w ++ r)))
          (entry_of m (zipper l (w ++ r)))
        ≡ some (false, entry_of m (zipper (reverse w ++ l) r))
  unfolding move_right
  move_right_more m l w r h = rw (ne_zero (byte_len w) h) (
      ap (λ x. some (false, x))
        (entry_eq m _ _ _ _ _ _ _ _ (text_right l w r)
          (omega (arith, length-append w r, length-append (reverse w) l, length-reverse w))
          (omega (
            arith,
            byte_len-reverse l,
            byte_len-reverse (reverse w ++ l),
            byte_len-append (reverse w) l,
            byte_len-reverse w,
          ))
          (omega (arith, length-append (reverse w) l, length-reverse w))))

  pub move_right_lem :
      (m : ℕ) (l w r : Text)
      → move_right is_alphanumeric
          (byte_len w, length w)
          (cursor_of (zipper l (w ++ r)))
          (entry_of m (zipper l (w ++ r)))
        ≡ some (false, entry_of m (zipper (reverse w ++ l) r))
  unfolding move_right
  move_right_lem m l [] r = rw byte_len_nil
  move_right_lem m l (c ∷ w) r = move_right_more m l (c ∷ w) r (omega (arith, byte_len-cons c w))
