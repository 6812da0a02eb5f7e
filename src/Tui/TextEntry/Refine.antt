-- ===== src/Tui/TextEntry/Refine.antt =====
-- What every key does to the line of sandstorm/src/tui/elements/text_entry.rs.
use mathlib.Core.Path.{subst}
use mathlib.Core.List.{reverse, reverse-append}
use dust_devil.Base.{
  ℕ, ◌+◌, ◌<◌, ◌≡◌, refl, sym, ap, ◌∙◌, Bool, true, false, ◌&&◌, not, Option, none, some, [], ◌∷◌,
  ◌++◌, append-nil, append_assoc, length, length-append, ◌==◌, ltb, if◌then◌else◌, arith,
  Bool-cases, inl, inr,
}
use dust_devil.Io.{Text}
use dust_devil.Utf8.{byte_len}
use dust_devil.Utf8.RoundTrip.{byte_len-append, byte_len-cons}
use dust_devil.Tui.TextEntry.{
  HandleEventStatus, PassFocusDirection, KeyCode, Answers, split_bytes, Change, type_char,
  remove_left, remove_right, move_left, move_right, edit, answer_key, after_edit, handle_key,
}
use dust_devil.Tui.TextEntry.Laws.{
  Zipper, zipper, ne_zero, text_right, entry_of, cursor_of, is_nil, entry_eq, byte_len_nil,
  byte_len-reverse, length-reverse, split_bytes-append, remove_left_lem, remove_right_lem,
  move_left_lem, move_right_lem,
}
use dust_devil.Tui.TextEntry.Edited.{
  edited, taken_left, kept_left, taken_right, kept_right, skip_left-taken_left,
  skip_right-taken_right, left-append, right-append,
}

module _ (is_alphanumeric : ℕ → Bool) where
  -- The change of an entry that a change of characters is.
  abbrev as_change : (max_length : ℕ) → Option (Bool × Zipper) → Option (Change is_alphanumeric)
  as_change m none = none
  as_change m (some (changed, z)) = some (some (changed, entry_of m z))

  cut : (l r : Text) → split_bytes (byte_len (reverse l)) (reverse l ++ r) ≡ some (reverse l, r)
  cut l r = split_bytes-append (reverse l) r

  type_lem :
      (m c : ℕ) (control : Bool) (answers : Answers) (l r : Text)
      → edit is_alphanumeric
          (KeyCode.char c)
          control
          answers
          (cursor_of (zipper l r))
          (entry_of m (zipper l r))
        ≡ as_change m (edited is_alphanumeric m (KeyCode.char c) control answers (zipper l r))
  unfolding edit type_char edited
  type_lem m c control answers l r =
      elim (Bool-cases (ltb (length l + length r) m && answers.on_char)) [
        | inl e ↦
            rw (e, cut l r)
              (ap (λ x. some (some (true, x)))
                (entry_eq m _ _ _ _ _ _ _ _
                  (sym (
                    ap (λ t. t ++ r) (reverse-append (c ∷ []) l)
                    ∙ append_assoc (reverse l) (c ∷ []) r))
                  (omega arith)
                  (sym (
                    ap byte_len (reverse-append (c ∷ []) l) ∙ byte_len-append (reverse l) (c ∷ [])))
                  (omega arith)))
        | inr e ↦ rw e refl
      ]

  backspace_lem :
      (m : ℕ) (control : Bool) (answers : Answers) (l r : Text)
      → edit is_alphanumeric KeyCode.backspace control answers
          (cursor_of (zipper l r))
          (entry_of m (zipper l r))
        ≡ as_change m (edited is_alphanumeric m KeyCode.backspace control answers (zipper l r))
  unfolding edit edited split_bytes byte_len
  backspace_lem m control answers l r =
      rw (cut l r, skip_left-taken_left is_alphanumeric control l)
        (ap (λ x. some x)
          (subst
            (λ x.
              remove_left is_alphanumeric
                (
                  byte_len (taken_left is_alphanumeric control l),
                  length (taken_left is_alphanumeric control l),
                )
                (cursor_of (zipper x r)) (entry_of m (zipper x r))
              ≡ some (
                not (is_nil (taken_left is_alphanumeric control l)),
                entry_of m (zipper (kept_left is_alphanumeric control l) r),
              ))
            (left-append is_alphanumeric control l)
            (remove_left_lem is_alphanumeric m (taken_left is_alphanumeric control l)
              (kept_left is_alphanumeric control l) r)))

  delete_lem :
      (m : ℕ) (control : Bool) (answers : Answers) (l r : Text)
      → edit is_alphanumeric KeyCode.delete control answers
          (cursor_of (zipper l r))
          (entry_of m (zipper l r))
        ≡ as_change m (edited is_alphanumeric m KeyCode.delete control answers (zipper l r))
  unfolding edit edited split_bytes byte_len
  delete_lem m control answers l r =
      rw (cut l r, skip_right-taken_right is_alphanumeric control r)
        (ap (λ x. some x)
          (subst
            (λ x.
              remove_right is_alphanumeric
                (
                  byte_len (taken_right is_alphanumeric control r),
                  length (taken_right is_alphanumeric control r),
                )
                (cursor_of (zipper l x)) (entry_of m (zipper l x))
              ≡ some (
                not (is_nil (taken_right is_alphanumeric control r)),
                entry_of m (zipper l (kept_right is_alphanumeric control r)),
              ))
            (right-append is_alphanumeric control r)
            (remove_right_lem is_alphanumeric m l (taken_right is_alphanumeric control r)
              (kept_right is_alphanumeric control r))))

  left_lem :
      (m : ℕ) (control : Bool) (answers : Answers) (l r : Text)
      → edit is_alphanumeric KeyCode.left control answers
          (cursor_of (zipper l r))
          (entry_of m (zipper l r))
        ≡ as_change m (edited is_alphanumeric m KeyCode.left control answers (zipper l r))
  unfolding edit edited split_bytes byte_len
  left_lem m control answers l r =
      rw (cut l r, skip_left-taken_left is_alphanumeric control l)
        (ap (λ x. some x)
          (subst
            (λ x.
              move_left is_alphanumeric
                (
                  byte_len (taken_left is_alphanumeric control l),
                  length (taken_left is_alphanumeric control l),
                )
                (cursor_of (zipper x r)) (entry_of m (zipper x r))
              ≡ some (
                false,
                entry_of m (
                    zipper (kept_left is_alphanumeric control l)
                      (reverse (taken_left is_alphanumeric control l) ++ r)),
              ))
            (left-append is_alphanumeric control l)
            (move_left_lem is_alphanumeric m (taken_left is_alphanumeric control l)
              (kept_left is_alphanumeric control l) r)))

  right_lem :
      (m : ℕ) (control : Bool) (answers : Answers) (l r : Text)
      → edit is_alphanumeric KeyCode.right control answers
          (cursor_of (zipper l r))
          (entry_of m (zipper l r))
        ≡ as_change m (edited is_alphanumeric m KeyCode.right control answers (zipper l r))
  unfolding edit edited split_bytes byte_len
  right_lem m control answers l r =
      rw (cut l r, skip_right-taken_right is_alphanumeric control r)
        (ap (λ x. some x)
          (subst
            (λ x.
              move_right is_alphanumeric
                (
                  byte_len (taken_right is_alphanumeric control r),
                  length (taken_right is_alphanumeric control r),
                )
                (cursor_of (zipper l x)) (entry_of m (zipper l x))
              ≡ some (
                false,
                entry_of m (
                    zipper (reverse (taken_right is_alphanumeric control r) ++ l)
                      (kept_right is_alphanumeric control r)),
              ))
            (right-append is_alphanumeric control r)
            (move_right_lem is_alphanumeric m l (taken_right is_alphanumeric control r)
              (kept_right is_alphanumeric control r))))

  home_lem :
      (m : ℕ) (control : Bool) (answers : Answers) (l r : Text)
      → edit is_alphanumeric KeyCode.home control answers
          (cursor_of (zipper l r))
          (entry_of m (zipper l r))
        ≡ as_change m (edited is_alphanumeric m KeyCode.home control answers (zipper l r))
  unfolding edit edited
  home_lem m control answers [] r = rw byte_len_nil
  home_lem m control answers (c ∷ l) r =
      rw
        (ne_zero (byte_len (reverse (c ∷ l)))
          (omega (arith, byte_len-reverse (c ∷ l), byte_len-cons c l)))
        (ap (λ x. some (some (false, x)))
          (entry_eq m _ _ _ _ _ _ _ _ refl
            (omega (arith, length-append (reverse (c ∷ l)) r, length-reverse (c ∷ l)))
            (sym byte_len_nil) refl))

  ne_more : (n k : ℕ) → n < k → (n == k) ≡ false
  ne_more n k h = ground (arith, h)

  same : (n : ℕ) → (n == n) ≡ true
  same n = ground arith

  end_lem :
      (m : ℕ) (control : Bool) (answers : Answers) (l r : Text)
      → edit is_alphanumeric KeyCode.end control answers
          (cursor_of (zipper l r))
          (entry_of m (zipper l r))
        ≡ as_change m (edited is_alphanumeric m KeyCode.end control answers (zipper l r))
  unfolding edit edited
  end_lem m control answers l [] = rw (append-nil (reverse l), same (byte_len (reverse l)))
  end_lem m control answers l (c ∷ r) =
      rw
        (ne_more (byte_len (reverse l)) (byte_len (reverse l ++ (c ∷ r)))
          (omega (arith, byte_len-append (reverse l) (c ∷ r), byte_len-cons c r)))
        (ap (λ x. some (some (false, x)))
          (entry_eq m _ _ _ _ _ _ _ _
            (ap (λ t. reverse l ++ t) (sym (append-nil (c ∷ r))) ∙ text_right l (c ∷ r) [])
            (omega (arith, length-append (reverse (c ∷ r)) l, length-reverse (c ∷ r)))
            (omega (
              arith,
              byte_len-append (reverse l) (c ∷ r),
              byte_len-reverse l,
              byte_len-reverse (reverse (c ∷ r) ++ l),
              byte_len-append (reverse (c ∷ r)) l,
              byte_len-reverse (c ∷ r),
            ))
            (omega (arith, length-append (reverse (c ∷ r)) l, length-reverse (c ∷ r)))))

  -- The keys that edit, and those that do not.
  edit_lem :
      (m : ℕ) (k : KeyCode) (control : Bool) (answers : Answers) (z : Zipper)
      → edit is_alphanumeric k control answers (cursor_of z) (entry_of m z)
        ≡ as_change m (edited is_alphanumeric m k control answers z)
  unfolding edit edited
  edit_lem m (KeyCode.char c) control answers z = type_lem m c control answers z.left z.right
  edit_lem m KeyCode.backspace control answers z = backspace_lem m control answers z.left z.right
  edit_lem m KeyCode.delete control answers z = delete_lem m control answers z.left z.right
  edit_lem m KeyCode.left control answers z = left_lem m control answers z.left z.right
  edit_lem m KeyCode.right control answers z = right_lem m control answers z.left z.right
  edit_lem m KeyCode.home control answers z = home_lem m control answers z.left z.right
  edit_lem m KeyCode.end control answers z = end_lem m control answers z.left z.right
  edit_lem m KeyCode.up control answers z = refl
  edit_lem m KeyCode.down control answers z = refl
  edit_lem m KeyCode.esc control answers z = refl
  edit_lem m KeyCode.tab control answers z = refl
  edit_lem m KeyCode.enter control answers z = refl
  edit_lem m KeyCode.other control answers z = refl

  -- What the entry answers, and its characters, after a change of the characters.
  abbrev pub answered :
      KeyCode → Answers → Zipper → Option (Bool × Zipper) → HandleEventStatus × Zipper
  answered k answers z none = (answer_key is_alphanumeric k answers, z)
  answered k answers z (some (changed, z2)) = (
    if changed && not answers.on_text_changed
        then HandleEventStatus.pass_focus PassFocusDirection.away
        else HandleEventStatus.handled,
    z2,
  )

  answered_lem :
      (m : ℕ) (k : KeyCode) (answers : Answers) (z : Zipper) (x : Option (Bool × Zipper))
      → after_edit is_alphanumeric k answers (entry_of m z) (as_change m x)
        ≡ some ((answered k answers z x).0, entry_of m (answered k answers z x).1)
  answered_lem m k answers z none = refl
  answered_lem m k answers z (some (changed, z2)) = refl

  -- A key that is pressed in an entry whose cursor stands between two characters never panics: it answers
  -- and leaves what `answered` says of the characters before and behind the cursor, and the cursor stands
  -- between two characters again, with the byte and the character indices that belong to them.
  pub handle_key-edited :
      (m : ℕ) (k : KeyCode) (control : Bool) (answers : Answers) (z : Zipper)
      → handle_key is_alphanumeric true k control answers (entry_of m z)
        ≡ some (
          (answered k answers z (edited is_alphanumeric m k control answers z)).0,
          entry_of m (answered k answers z (edited is_alphanumeric m k control answers z)).1,
        )
  unfolding handle_key
  handle_key-edited m k control answers z =
      rw (edit_lem m k control answers z)
        (answered_lem m k answers z (edited is_alphanumeric m k control answers z))
