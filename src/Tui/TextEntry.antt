-- ===== src/Tui/TextEntry.antt =====
-- sandstorm/src/tui/elements/text_entry.rs: a line of text that is edited. Indices count bytes, and a cut
-- inside a character panics: `none`.
pub mod Laws
pub mod Edited
pub mod Refine
use mathlib.Core.List.{reverse}
use dust_devil.Base.{
  ℕ, zero, suc, ◌+◌, ◌-◌, Bool, true, false, ◌&&◌, not, Option, none, some, List, [], ◌∷◌, ◌++◌,
  length, ◌==◌, ltb, if◌then◌else◌,
}
use dust_devil.Io.{Text}
use dust_devil.Utf8.{byte_len}

pub record CursorPosition : Type 0 where
  pub index_bytes : ℕ
  pub index_chars : ℕ

-- `TextEntry` with its controller's inner state, without the styles and the position on the screen.
pub record TextEntry : Type 0 where
  pub text : Text
  pub text_len_chars : ℕ
  pub max_length : ℕ
  pub cursor : Option CursorPosition

pub data PassFocusDirection : Type 0 where
  away up down left right forward : PassFocusDirection

pub data HandleEventStatus : Type 0 where
  handled unhandled : HandleEventStatus
  pass_focus : PassFocusDirection → HandleEventStatus

pub data OnEnterResult : Type 0 where
  handled unhandled : OnEnterResult
  pass_focus : PassFocusDirection → OnEnterResult

pub data KeyCode : Type 0 where
  char : (c : ℕ) → KeyCode
  backspace delete left right end home up down esc tab enter other : KeyCode

-- What the entry's handler answers while an event is handled.
pub record Answers : Type 0 where
  pub on_enter : OnEnterResult
  pub on_char : Bool
  pub on_text_changed : Bool

abbrev pub new : Text → (max_length : ℕ) → TextEntry
new t m = record { text = t; text_len_chars = length t; max_length = m; cursor = none }

unfoldable pub receive_focus : TextEntry → TextEntry
receive_focus e = record e {
  cursor = some (record { index_bytes = byte_len e.text; index_chars = e.text_len_chars });
}

unfoldable pub focus_lost : TextEntry → TextEntry
focus_lost e = record e { cursor = none }

-- `&text[..n]` and `&text[n..]`
unfoldable pub split_bytes : ℕ → Text → Option (Text × Text)
split_bytes n [] = if n == 0 then some ([], []) else none
split_bytes n (c ∷ s) =
    let rest : Option (Text × Text) = elim (split_bytes (n - byte_len (c ∷ [])) s) [
      | some (a, b) ↦ some (c ∷ a, b)
      | none ↦ none
    ] in
    if n == 0 then some ([], c ∷ s) else if ltb n (byte_len (c ∷ [])) then none else rest

-- `text.drain(from..to)`
unfoldable pub drain : (from to : ℕ) → Text → Option Text
unfolding split_bytes
drain from to s = elim (split_bytes from s) [
  | none ↦ none
  | some (before, _) ↦ elim (split_bytes to s) [
    | some (_, after) ↦ some (before ++ after)
    | none ↦ none
  ]
]

-- Bytes and characters.
abbrev pub plus : ℕ × ℕ → ℕ × ℕ → ℕ × ℕ
plus (b, c) (d, e) = (b + d, c + e)

-- The characters that a loop passes, counted, and those that it leaves.
unfoldable pub count_while : (ℕ → Bool) → Text → ℕ × ℕ
count_while p [] = (0, 0)
count_while p (c ∷ s) =
    let rest = count_while p s in if p c then plus (byte_len (c ∷ []), 1) rest else (0, 0)

unfoldable pub drop_while : (ℕ → Bool) → Text → Text
drop_while p [] = []
drop_while p (c ∷ s) = let rest = drop_while p s in if p c then rest else c ∷ s

abbrev pub first_char : Text → ℕ × ℕ
first_char [] = (0, 0)
first_char (c ∷ s) = (byte_len (c ∷ []), 1)

module _ (is_alphanumeric : ℕ → Bool) where
  abbrev pub is_other : ℕ → Bool
  is_other c = not (is_alphanumeric c)

  unfoldable pub calc_wordskip_left : Text → ℕ × ℕ
  unfolding count_while drop_while
  calc_wordskip_left s =
      let chars = reverse s in
      plus (count_while is_other chars) (count_while is_alphanumeric (drop_while is_other chars))

  unfoldable pub calc_wordskip_right : Text → ℕ × ℕ
  unfolding count_while drop_while
  calc_wordskip_right s =
      plus (count_while is_alphanumeric s) (count_while is_other (drop_while is_alphanumeric s))

  -- What Backspace and the left arrow skip, and Delete and the right arrow.
  unfoldable pub skip_left : (control : Bool) → Text → ℕ × ℕ
  unfolding calc_wordskip_left
  skip_left control s = if control then calc_wordskip_left s else first_char (reverse s)

  unfoldable pub skip_right : (control : Bool) → Text → ℕ × ℕ
  unfolding calc_wordskip_right
  skip_right control s = if control then calc_wordskip_right s else first_char s

  -- What an event changes: whether the text has changed, and the entry.
  abbrev pub Change : Type 0
  Change = Option (Bool × TextEntry)

  -- The entry with a text and a cursor.
  abbrev pub moved : Text → (chars : ℕ) → CursorPosition → TextEntry → TextEntry
  moved t chars cursor e = record e { text = t; text_len_chars = chars; cursor = some cursor }

  unfoldable pub type_char : (c : ℕ) → Answers → CursorPosition → TextEntry → Change
  unfolding split_bytes
  type_char c answers p e =
      if ltb e.text_len_chars e.max_length && answers.on_char
      then elim (split_bytes p.index_bytes e.text) [
        | none ↦ none
        | some (before, after) ↦ some (
          true,
          moved (before ++ c ∷ after) (e.text_len_chars + 1)
              (record {
                index_bytes = p.index_bytes + byte_len (c ∷ []);
                index_chars = p.index_chars + 1;
              })
              e,
        )
      ]
      else some (false, e)

  unfoldable pub remove_left : ℕ × ℕ → CursorPosition → TextEntry → Change
  unfolding drain
  remove_left (bytes, chars) p e =
      if bytes == 0
      then some (false, e)
      else elim (drain (p.index_bytes - bytes) p.index_bytes e.text) [
        | none ↦ none
        | some t ↦ some (
          true,
          moved t (e.text_len_chars - chars)
              (record { index_bytes = p.index_bytes - bytes; index_chars = p.index_chars - chars })
              e,
        )
      ]

  unfoldable pub remove_right : ℕ × ℕ → CursorPosition → TextEntry → Change
  unfolding drain
  remove_right (bytes, chars) p e =
      if bytes == 0
      then some (false, e)
      else elim (drain p.index_bytes (p.index_bytes + bytes) e.text) [
        | none ↦ none
        | some t ↦ some (true, moved t (e.text_len_chars - chars) p e)
      ]

  abbrev pub with_cursor : CursorPosition → TextEntry → Change
  with_cursor p e = some (false, record e { cursor = some p })

  unfoldable pub move_left : ℕ × ℕ → CursorPosition → TextEntry → Change
  move_left (bytes, chars) p e =
      if bytes == 0
      then some (false, e)
      else with_cursor
          (record { index_bytes = p.index_bytes - bytes; index_chars = p.index_chars - chars }) e

  unfoldable pub move_right : ℕ × ℕ → CursorPosition → TextEntry → Change
  move_right (bytes, chars) p e =
      if bytes == 0
      then some (false, e)
      else with_cursor
          (record { index_bytes = p.index_bytes + bytes; index_chars = p.index_chars + chars }) e

  -- The text before the cursor, and behind it.
  abbrev pub before_cursor : CursorPosition → TextEntry → (Text → Change) → Change
  before_cursor p e f = elim (split_bytes p.index_bytes e.text) [
    | some (before, _) ↦ f before
    | none ↦ none
  ]

  abbrev pub after_cursor : CursorPosition → TextEntry → (Text → Change) → Change
  after_cursor p e f = elim (split_bytes p.index_bytes e.text) [
    | some (_, after) ↦ f after
    | none ↦ none
  ]

  -- The keys that edit; `none` for the others, in the outer option.
  unfoldable pub edit :
      KeyCode → (control : Bool) → Answers → CursorPosition → TextEntry → Option Change
  edit (KeyCode.char c) control answers p e = some (type_char c answers p e)
  edit KeyCode.backspace control answers p e =
      some (before_cursor p e (λ s. remove_left (skip_left control s) p e))
  edit KeyCode.delete control answers p e =
      some (after_cursor p e (λ s. remove_right (skip_right control s) p e))
  edit KeyCode.left control answers p e =
      some (before_cursor p e (λ s. move_left (skip_left control s) p e))
  edit KeyCode.right control answers p e =
      some (after_cursor p e (λ s. move_right (skip_right control s) p e))
  edit KeyCode.end control answers p e = some (
      if p.index_bytes == byte_len e.text
      then some (false, e)
      else with_cursor (record { index_bytes = byte_len e.text; index_chars = e.text_len_chars }) e)
  edit KeyCode.home control answers p e = some (
      if p.index_bytes == 0
      then some (false, e)
      else with_cursor (record { index_bytes = 0; index_chars = 0 }) e)
  edit _ control answers p e = none

  -- What is answered where the key does not edit.
  unfoldable pub answer_key : KeyCode → Answers → HandleEventStatus
  answer_key KeyCode.up answers = HandleEventStatus.pass_focus PassFocusDirection.up
  answer_key KeyCode.down answers = HandleEventStatus.pass_focus PassFocusDirection.down
  answer_key KeyCode.esc answers = HandleEventStatus.pass_focus PassFocusDirection.away
  answer_key KeyCode.tab answers = HandleEventStatus.pass_focus PassFocusDirection.forward
  answer_key KeyCode.enter answers = elim answers.on_enter [
    | OnEnterResult.handled ↦ HandleEventStatus.handled
    | OnEnterResult.unhandled ↦ HandleEventStatus.unhandled
    | OnEnterResult.pass_focus d ↦ HandleEventStatus.pass_focus d
  ]
  answer_key _ answers = HandleEventStatus.unhandled

  abbrev pub after_change : Answers → Change → Option (HandleEventStatus × TextEntry)
  after_change answers none = none
  after_change answers (some (text_changed, e)) = some (
    if text_changed && not answers.on_text_changed
        then HandleEventStatus.pass_focus PassFocusDirection.away
        else HandleEventStatus.handled,
    e,
  )

  abbrev pub after_edit :
      KeyCode → Answers → TextEntry → Option Change → Option (HandleEventStatus × TextEntry)
  after_edit k answers e none = some (answer_key k answers, e)
  after_edit k answers e (some change) = after_change answers change

  -- A key that is pressed or repeated.
  unfoldable pub handle_key :
      (is_focused : Bool)
      → KeyCode
      → (control : Bool) → Answers
      → TextEntry
      → Option (HandleEventStatus × TextEntry)
  unfolding edit answer_key
  handle_key is_focused k control answers e =
      if not is_focused then some (HandleEventStatus.unhandled, e) else elim e.cursor [
        | none ↦ some (HandleEventStatus.unhandled, e)
        | some p ↦ after_edit k answers e (edit k control answers p e)
      ]
