-- ===== src/Server/Lines/Each.antt =====
-- What dust-devil/src/utils/process_lines.rs is to make of the lines of an input: what the function makes of
-- each, and how the run ends.
use dust_devil.Base.{
  ℕ, ◌+◌, ◌%◌, ◌^◌, ◌≡◌, refl, ap, Option, none, some, List, [], ◌∷◌, length, leb, if◌then◌else◌,
}
use dust_devil.Io.{Bytes, Text, Error}
use dust_devil.Utf8.{from_utf8, valid_up_to}
use dust_devil.Server.Lines.{
  io, invalid_utf8, line_too_long, cancelled, Called, Ended, finished, stopped, call_line, called,
  last_line, at_end,
}
use dust_devil.Server.Lines.Split.{each_called}

-- What follows a call for line `n`: its state is handed on, or the run stops with its error or panics.
abbrev pub and_then : {S T A : Type 0} → ℕ → Called S T → (S → Ended A T) → Ended A T
and_then n (Called.done s) next = next s
and_then n (Called.failed t) next = stopped (cancelled n t)
and_then n Called.panicked next = Ended.panicked

module _ {S T : Type 0} (f : Text → ℕ → S → Called S T) where
  -- The function on the characters of a line and then the rest, or the place of its first byte that is not
  -- UTF-8, counted from 1.
  unfoldable pub on_line : {A : Type 0} → Bytes → ℕ → S → (S → Ended A T) → Ended A T
  on_line line n s next = elim (from_utf8 line) [
    | some t ↦ and_then n (f t n s) next
    | none ↦ stopped (invalid_utf8 n (valid_up_to line + 1))
  ]

  -- The error of the input, or the function on what stands behind the last line break, if anything does;
  -- the number of the next line, modulo 2 ^ 32, with the state.
  abbrev pub closing : Option Error → Bytes → ℕ → S → Ended (ℕ × S) T
  closing (some e) rest n s = stopped (io e)
  closing none [] n s = finished (n, s)
  closing none (b ∷ rest) n s = on_line (b ∷ rest) n s (λ s'. finished ((n + 1) % 2 ^ 32, s'))

  -- The function on each line in turn, up to the first that fails. A line that does not fit into the
  -- buffer of 8192 bytes is refused.
  unfoldable pub each_line : Option Error → ℕ → S → List Bytes → Bytes → Ended (ℕ × S) T
  unfolding on_line
  each_line ends n s [] rest =
      if leb 8192 (length rest) then stopped (line_too_long n 8192) else closing ends rest n s
  each_line ends n s (line ∷ lines) rest =
      if leb 8192 (length line)
      then stopped (line_too_long n 8192)
      else on_line line n s (λ s'. each_line ends ((n + 1) % 2 ^ 32) s' lines rest)

  call_line-on_line :
      {A : Type 0} (line : Bytes) (n : ℕ) (s : S) (next other : S → Ended A T)
      → ((s' : S) → next s' ≡ other s')
      → (elim (call_line f line n s) as (λ x. Ended A T) [
        | finished s' ↦ next s'
        | stopped e ↦ stopped e
        | Ended.panicked ↦ Ended.panicked
      ])
        ≡ on_line line n s other
  unfolding call_line called on_line
  call_line-on_line {A = A} line n s next other h = by_text (from_utf8 line)
    where
      by_call :
          (c : Called S T)
          → (elim (called f n c) as (λ x. Ended A T) [
            | finished s' ↦ next s'
            | stopped e ↦ stopped e
            | Ended.panicked ↦ Ended.panicked
          ])
            ≡ and_then n c other
      by_call (Called.done s') = h s'
      by_call (Called.failed t) = refl
      by_call Called.panicked = refl

      by_text :
          (o : Option Text)
          → (elim (elim o as (λ x. Ended S T) [
            | some t ↦ called f n (f t n s)
            | none ↦ stopped (invalid_utf8 n (valid_up_to line + 1))
          ])
              as (λ x. Ended A T) [
                | finished s' ↦ next s'
                | stopped e ↦ stopped e
                | Ended.panicked ↦ Ended.panicked
              ])
            ≡ (elim o as (λ x. Ended A T) [
              | some t ↦ and_then n (f t n s) other
              | none ↦ stopped (invalid_utf8 n (valid_up_to line + 1))
            ])
      by_text (some t) = by_call (f t n s)
      by_text none = refl

  at_end-closing :
      (ends : Option Error) (rest : Bytes) (n : ℕ) (s : S)
      → at_end f ends rest n s ≡ closing ends rest n s
  unfolding at_end last_line
  at_end-closing (some e) rest n s = refl
  at_end-closing none [] n s = refl
  at_end-closing none (b ∷ rest) n s = call_line-on_line (b ∷ rest) n s _ _ (λ s'. refl)

  pub each_called-each_line :
      (ends : Option Error) (n : ℕ) (s : S) (lines : List Bytes) (rest : Bytes)
      → each_called f ends n s lines rest ≡ each_line ends n s lines rest
  unfolding each_called each_line
  each_called-each_line ends n s [] rest =
      ap (λ r. if leb 8192 (length rest) then stopped (line_too_long n 8192) else r)
        (at_end-closing ends rest n s)
  each_called-each_line ends n s (line ∷ lines) rest =
      ap (λ r. if leb 8192 (length line) then stopped (line_too_long n 8192) else r)
        (call_line-on_line line n s _ _
          (λ s'. each_called-each_line ends ((n + 1) % 2 ^ 32) s' lines rest))
