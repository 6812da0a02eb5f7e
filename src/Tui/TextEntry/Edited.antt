-- ===== src/Tui/TextEntry/Edited.antt =====
-- A key of sandstorm/src/tui/elements/text_entry.rs as a change of the characters before and behind the
-- cursor, and what the skips of the source take of them.
use mathlib.Core.List.{reverse, reverse-reverse}
use dust_devil.Base.{
  ℕ, ◌+◌, ◌≡◌, refl, ap, ◌∙◌, Bool, true, false, ◌&&◌, not, Option, none, some, [], ◌∷◌, ◌++◌,
  append_assoc, length, length-append, ltb, if◌then◌else◌,
}
use dust_devil.Io.{Text}
use dust_devil.Utf8.{byte_len}
use dust_devil.Utf8.RoundTrip.{byte_len-append}
use dust_devil.Tui.TextEntry.{
  KeyCode, Answers, plus, count_while, drop_while, first_char, is_other, skip_left, skip_right,
}
use dust_devil.Tui.TextEntry.Laws.{
  Zipper, zipper, take_while, is_nil, byte_len_nil, count_while-take_while, take_while-drop_while,
}

-- The first characters and the others.
abbrev first : Text → Text
first [] = []
first (c ∷ s) = c ∷ []

abbrev others : Text → Text
others [] = []
others (c ∷ s) = s

-- Characters that satisfy one test, and then those that satisfy another.
abbrev word : (p q : ℕ → Bool) → Text → Text
word p q s = take_while p s ++ take_while q (drop_while p s)

abbrev behind_word : (p q : ℕ → Bool) → Text → Text
behind_word p q s = drop_while q (drop_while p s)

counts :
    (p q : ℕ → Bool) (s : Text)
    → plus (count_while p s) (count_while q (drop_while p s))
      ≡ (byte_len (word p q s), length (word p q s))
counts p q s = rw (
  count_while-take_while p s,
  count_while-take_while q (drop_while p s),
  byte_len-append (take_while p s) (take_while q (drop_while p s)),
  length-append (take_while p s) (take_while q (drop_while p s)),
)

word-append : (p q : ℕ → Bool) (s : Text) → word p q s ++ behind_word p q s ≡ s
word-append p q s =
    append_assoc (take_while p s) (take_while q (drop_while p s)) (behind_word p q s)
    ∙ ap (λ t. take_while p s ++ t) (take_while-drop_while q (drop_while p s))
    ∙ take_while-drop_while p s

first-append : (s : Text) → first s ++ others s ≡ s
first-append [] = refl
first-append (c ∷ s) = refl

first_counts : (s : Text) → first_char s ≡ (byte_len (first s), length (first s))
first_counts [] = rw byte_len_nil
first_counts (c ∷ s) = refl

module _ (is_alphanumeric : ℕ → Bool) where
  -- What Backspace or the left arrow takes of the characters before the cursor, the last one first: with
  -- Control those that are not alphanumeric and then those that are, else one; and what they leave.
  unfoldable pub taken_left : (control : Bool) → Text → Text
  unfolding take_while drop_while
  taken_left control l =
      if control then word (is_other is_alphanumeric) is_alphanumeric l else first l

  unfoldable pub kept_left : (control : Bool) → Text → Text
  unfolding drop_while
  kept_left control l =
      if control then behind_word (is_other is_alphanumeric) is_alphanumeric l else others l

  -- The same of Delete and the right arrow, behind the cursor.
  unfoldable pub taken_right : (control : Bool) → Text → Text
  unfolding take_while drop_while
  taken_right control r =
      if control then word is_alphanumeric (is_other is_alphanumeric) r else first r

  unfoldable pub kept_right : (control : Bool) → Text → Text
  unfolding drop_while
  kept_right control r =
      if control then behind_word is_alphanumeric (is_other is_alphanumeric) r else others r

  -- A key as a change of the characters: whether it changes the text, and the characters then; `none` for a
  -- key that does not edit.
  unfoldable pub edited :
      (max_length : ℕ) → KeyCode → (control : Bool) → Answers → Zipper → Option (Bool × Zipper)
  unfolding taken_left kept_left taken_right kept_right
  edited m (KeyCode.char c) control answers z = some (
      if ltb (length z.left + length z.right) m && answers.on_char
      then (true, zipper (c ∷ z.left) z.right)
      else (false, z))
  edited m KeyCode.backspace control answers z =
      some (not (is_nil (taken_left control z.left)), zipper (kept_left control z.left) z.right)
  edited m KeyCode.delete control answers z =
      some (not (is_nil (taken_right control z.right)), zipper z.left (kept_right control z.right))
  edited m KeyCode.left control answers z =
      some
        (false, zipper (kept_left control z.left) (reverse (taken_left control z.left) ++ z.right))
  edited m KeyCode.right control answers z =
      some (
        false,
        zipper (reverse (taken_right control z.right) ++ z.left) (kept_right control z.right),
      )
  edited m KeyCode.home control answers z = some (false, zipper [] (reverse z.left ++ z.right))
  edited m KeyCode.end control answers z = some (false, zipper (reverse z.right ++ z.left) [])
  edited m _ control answers z = none

  pub skip_left-taken_left :
      (control : Bool) (l : Text)
      → skip_left is_alphanumeric control (reverse l)
        ≡ (byte_len (taken_left control l), length (taken_left control l))
  unfolding skip_left taken_left
  skip_left-taken_left true l =
      rw reverse-reverse (counts (is_other is_alphanumeric) is_alphanumeric l)
  skip_left-taken_left false l = rw reverse-reverse (first_counts l)

  pub skip_right-taken_right :
      (control : Bool) (r : Text)
      → skip_right is_alphanumeric control r
        ≡ (byte_len (taken_right control r), length (taken_right control r))
  unfolding skip_right taken_right
  skip_right-taken_right true r = counts is_alphanumeric (is_other is_alphanumeric) r
  skip_right-taken_right false r = first_counts r

  pub left-append : (control : Bool) (l : Text) → taken_left control l ++ kept_left control l ≡ l
  unfolding taken_left kept_left
  left-append true l = word-append (is_other is_alphanumeric) is_alphanumeric l
  left-append false l = first-append l

  pub right-append : (control : Bool) (r : Text) → taken_right control r ++ kept_right control r ≡ r
  unfolding taken_right kept_right
  right-append true r = word-append is_alphanumeric (is_other is_alphanumeric) r
  right-append false r = first-append r
