-- ===== src/Server/Lines/Split.antt =====
-- The lines of an input, and what dust-devil/src/utils/process_lines.rs makes of them one by one.
use dust_devil.Base.{
  ℕ, ◌+◌, ◌≤◌, ◌<◌, ◌≡◌, sym, Option, List, [], ◌∷◌, ◌++◌, length, length-append, ◌==◌, leb,
  if◌then◌else◌, arith, Bool-cases, inl, inr,
}
use dust_devil.Io.{Bytes, Text, Error}
use dust_devil.Server.Lines.{
  buffer_capacity, line_too_long, Called, Ended, finished, stopped, next_line, call_line, at_end,
}

-- The lines of an input that end with a line break, and what stands behind the last break. The
-- first line begins with `buf`.
unfoldable pub split_from : Bytes → Bytes → List Bytes × Bytes
split_from buf [] = ([], buf)
split_from buf (b ∷ bs) =
    let next = split_from [] bs in
    let same = split_from (buf ++ b ∷ []) bs in if b == b'\n' then (buf ∷ next.0, next.1) else same

module _ {S T : Type 0} (f : Text → ℕ → S → Called S T) where
  -- The function on each line in turn, up to the first that fails. A line that does not fit into the
  -- buffer is refused.
  unfoldable pub each_called : Option Error → ℕ → S → List Bytes → Bytes → Ended (ℕ × S) T
  each_called ends n s [] rest =
      if leb buffer_capacity (length rest)
      then stopped (line_too_long n buffer_capacity)
      else at_end f ends rest n s
  each_called ends n s (line ∷ lines) rest =
      if leb buffer_capacity (length line)
      then stopped (line_too_long n buffer_capacity)
      else elim (call_line f line n s) [
        | finished s' ↦ each_called ends (next_line n) s' lines rest
        | stopped e ↦ stopped e
        | Ended.panicked ↦ Ended.panicked
      ]

  -- The same, byte by byte.
  unfoldable pub bytewise : Option Error → Bytes → ℕ → S → Bytes → Ended (ℕ × S) T
  bytewise ends buf n s [] = at_end f ends buf n s
  bytewise ends buf n s (b ∷ bs) =
      let rest = bytewise ends (buf ++ b ∷ []) n s bs in
      if b == b'\n'
      then elim (call_line f buf n s) [
        | finished s' ↦ bytewise ends [] (next_line n) s' bs
        | stopped e ↦ stopped e
        | Ended.panicked ↦ Ended.panicked
      ]
      else if length buf + 1 == buffer_capacity
      then stopped (line_too_long n buffer_capacity)
      else rest

  long_lem :
      (ends : Option Error) (buf : Bytes) (n : ℕ) (s : S) (src : Bytes)
      → buffer_capacity ≤ length buf
      → each_called ends n s (split_from buf src).0 (split_from buf src).1
        ≡ stopped (line_too_long n buffer_capacity)
  unfolding each_called split_from
  long_lem ends buf n s [] h = ground (arith, h)
  long_lem ends buf n s (b ∷ bs) h = elim (Bool-cases (b == b'\n')) [
    | inl e ↦ rw e (ground (arith, h))
    | inr e ↦
        rw e (long_lem ends (buf ++ b ∷ []) n s bs (omega (arith, h, length-append buf (b ∷ []))))
  ]

  after_line :
      (ends : Option Error) (l n : ℕ) (bs buf : Bytes) (r : Ended S T)
      → length buf < buffer_capacity
      → ((s' : S)
          → bytewise ends [] n s' bs
            ≡ each_called ends n s' (split_from [] bs).0 (split_from [] bs).1)
      → (elim r [
        | finished s' ↦ bytewise ends [] n s' bs
        | stopped e ↦ stopped e
        | Ended.panicked ↦ Ended.panicked
      ])
        ≡ (if leb buffer_capacity (length buf)
            then stopped (line_too_long l buffer_capacity)
            else elim r [
              | finished s' ↦ each_called ends n s' (split_from [] bs).0 (split_from [] bs).1
              | stopped e ↦ stopped e
              | Ended.panicked ↦ Ended.panicked
            ])
  after_line ends l n bs buf (finished s') h ih = ground (arith, h, ih s')
  after_line ends l n bs buf (stopped e) h ih = ground (arith, h)
  after_line ends l n bs buf Ended.panicked h ih = ground (arith, h)

  pub bytewise-eq-each_called :
      (ends : Option Error) (buf : Bytes) (n : ℕ) (s : S) (src : Bytes)
      → length buf < buffer_capacity
      → bytewise ends buf n s src
        ≡ each_called ends n s (split_from buf src).0 (split_from buf src).1
  unfolding bytewise each_called split_from
  bytewise-eq-each_called ends buf n s [] h = ground (arith, h)
  bytewise-eq-each_called ends buf n s (b ∷ bs) h = elim (Bool-cases (b == b'\n')) [
    | inl e ↦ rw e (
        after_line ends n (next_line n) bs buf (call_line f buf n s) h
          (λ s'. bytewise-eq-each_called ends [] (next_line n) s' bs (omega arith)))
    | inr e ↦ elim (Bool-cases (length buf + 1 == buffer_capacity)) [
      | inl full ↦
          simp (e, full)
            (sym (
              long_lem ends (buf ++ b ∷ []) n s bs
                (ground (arith, full, length-append buf (b ∷ [])))))
      | inr more ↦
          simp (e, more)
            (bytewise-eq-each_called ends (buf ++ b ∷ []) n s bs
              (ground (arith, h, more, length-append buf (b ∷ []))))
    ]
  ]
