-- ===== src/Server/Lines.antt =====
-- dust-devil/src/utils/process_lines.rs: a function called on each line of an input that is read
-- into a buffer in pieces of whatever size the reader gives.
pub mod Split
pub mod Each
pub mod Laws
use dust_devil.Base.{
  ℕ, zero, suc, ◌+◌, ◌-◌, ◌%◌, ◌^◌, Bool, true, false, ◌&&◌, not, Option, none, some, [], ◌∷◌, ◌++◌,
  length, ◌==◌, if◌then◌else◌,
}
use dust_devil.Io.{Bytes, Text, Error}
use dust_devil.Io.Pieces.{read_some}
use dust_devil.Utf8.{from_utf8, valid_up_to}

abbrev pub buffer_capacity : ℕ
buffer_capacity = 0x2000

-- `ProcessFileLinesError`; the function's own error comes with `cancelled`.
pub data ProcessFileLinesError (T : Type 0) : Type 0 where
  io : Error → ProcessFileLinesError T
  invalid_utf8 line_too_long : (line_number byte_at : ℕ) → ProcessFileLinesError T
  cancelled : ℕ → T → ProcessFileLinesError T

-- What a call of the function ends with: a changed state, an error, or a panic.
pub data Called (S T : Type 0) : Type 0 where
  done : S → Called S T
  failed : T → Called S T
  panicked : Called S T

-- How a whole run ends. `A` is what it hands on.
pub data Ended (A T : Type 0) : Type 0 where
  finished : A → Ended A T
  stopped : ProcessFileLinesError T → Ended A T
  panicked : Ended A T

abbrev pub next_line : ℕ → ℕ
next_line n = (n + 1) % 2 ^ 32

abbrev pub is_none_read : Bytes → Bool
is_none_read [] = true
is_none_read (b ∷ bs) = false

module _ {S T : Type 0} (f : Text → ℕ → S → Called S T) where
  unfoldable pub called : ℕ → Called S T → Ended S T
  called n (Called.done s) = finished s
  called n (Called.failed t) = stopped (cancelled n t)
  called n Called.panicked = Ended.panicked

  -- The function on one line, if the line is UTF-8.
  unfoldable pub call_line : Bytes → ℕ → S → Ended S T
  unfolding called
  call_line line n s = elim (from_utf8 line) [
    | some t ↦ called n (f t n s)
    | none ↦ stopped (invalid_utf8 n (valid_up_to line + 1))
  ]

  -- The `for` loop over new bytes. `line` is the buffer from `line_start` on, and `cut` whether
  -- `line_start` is not 0.
  unfoldable pub scan : (cut : Bool) → Bytes → ℕ → S → Bytes → Ended (Bool × Bytes × ℕ × S) T
  unfolding call_line
  scan cut line n s [] = finished (cut, line, n, s)
  scan cut line n s (b ∷ new) =
      let rest = scan cut (line ++ b ∷ []) n s new in
      if b == b'\n'
      then elim (call_line line n s) [
        | finished s' ↦ scan true [] (next_line n) s' new
        | stopped e ↦ stopped e
        | Ended.panicked ↦ Ended.panicked
      ]
      else rest

  -- The last line, where the input does not end with a line break.
  unfoldable pub last_line : Bytes → ℕ → S → Ended (ℕ × S) T
  unfolding call_line
  last_line [] n s = finished (n, s)
  last_line (b ∷ line) n s = elim (call_line (b ∷ line) n s) [
    | finished s' ↦ finished (next_line n, s')
    | stopped e ↦ stopped e
    | Ended.panicked ↦ Ended.panicked
  ]

  -- `read` giving no bytes: the end of the input, or its error.
  unfoldable pub at_end : Option Error → Bytes → ℕ → S → Ended (ℕ × S) T
  unfolding last_line
  at_end (some e) line n s = stopped (io e)
  at_end none line n s = last_line line n s

  -- The outer loop, from a buffer with `buf` in it. The input ends with an error or without one;
  -- `sizes` are the bytes, less one, that each read has ready. `none` where the fuel does not last.
  unfoldable pub process_loop :
      (sizes : ℕ → ℕ) (ends : Option Error) (fuel : ℕ)
      → Bytes
      → ℕ
      → S
      → Bytes
      → Option (Ended (ℕ × S) T)
  unfolding scan at_end read_some
  process_loop sizes ends zero buf n s src = none
  process_loop sizes ends (suc fuel) buf n s src =
      let got = read_some (suc (sizes fuel)) (buffer_capacity - length buf) src in
      elim (is_none_read got.0) [
        | true ↦ some (at_end ends buf n s)
        | false ↦ elim (scan false buf n s got.0) [
          | finished (cut, line, n', s') ↦
              elim (not cut && (length got.0 == buffer_capacity - length buf)) [
                | true ↦ some (stopped (line_too_long n' buffer_capacity))
                | false ↦ process_loop sizes ends fuel line n' s' got.1
              ]
          | stopped e ↦ some (stopped e)
          | Ended.panicked ↦ some Ended.panicked
        ]
      ]

  unfoldable pub process_lines_utf8 :
      (sizes : ℕ → ℕ) (ends : Option Error) (fuel : ℕ) → S → Bytes → Option (Ended (ℕ × S) T)
  unfolding process_loop
  process_lines_utf8 sizes ends fuel s src = process_loop sizes ends fuel [] 1 s src
