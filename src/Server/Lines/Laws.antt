-- ===== src/Server/Lines/Laws.antt =====
-- The reading of lines in dust-devil/src/utils/process_lines.rs, against the lines of the input.
use mathlib.Core.Path.{subst}
use dust_devil.Base.{
  ℕ, zero, suc, ◌+◌, ◌-◌, ◌≤◌, ◌<◌, ◌≡◌, refl, sym, ap, ◌∙◌, Bool, true, false, ◌&&◌, not, Option,
  some, [], ◌∷◌, ◌++◌, length, length-append, ◌==◌, if◌then◌else◌, arith, Bool-cases, inl, inr,
}
use dust_devil.Io.{Bytes, Text, Error}
use dust_devil.Io.Pieces.{read_some, length-read_some, read_some-append}
use dust_devil.Server.Lines.{
  buffer_capacity, line_too_long, Called, Ended, finished, stopped, next_line, call_line, scan,
  at_end, is_none_read, process_loop, process_lines_utf8,
}
use dust_devil.Server.Lines.Split.{split_from, each_called, bytewise, bytewise-eq-each_called}
use dust_devil.Server.Lines.Each.{each_line, each_called-each_line}

read_gives :
    (n max : ℕ) (src : Bytes)
    → 0 < max
    → is_none_read (read_some (suc n) max src).0 ≡ is_none_read src
unfolding read_some
read_gives n zero src h = absurd (omega arith)
read_gives n (suc max) [] h = refl
read_gives n (suc max) (b ∷ bs) h = refl

module _ {S T : Type 0} (f : Text → ℕ → S → Called S T) where
  -- What the rest of the loop makes of a buffer that has been gone through.
  carry_on : Option Error → Bytes → Ended (Bool × Bytes × ℕ × S) T → Ended (ℕ × S) T
  carry_on ends src (finished (cut, line, n, s)) =
      if length line == buffer_capacity
      then stopped (line_too_long n buffer_capacity)
      else bytewise f ends line n s src
  carry_on ends src (stopped e) = stopped e
  carry_on ends src Ended.panicked = Ended.panicked

  carry_on_line :
      (ends : Option Error) (n : ℕ) (new src : Bytes) (r : Ended S T)
      → ((s' : S)
          → carry_on ends src (scan f true [] n s' new) ≡ bytewise f ends [] n s' (new ++ src))
      → carry_on ends src (elim r [
        | finished s' ↦ scan f true [] n s' new
        | stopped e ↦ stopped e
        | Ended.panicked ↦ Ended.panicked
      ])
        ≡ (elim r [
          | finished s' ↦ bytewise f ends [] n s' (new ++ src)
          | stopped e ↦ stopped e
          | Ended.panicked ↦ Ended.panicked
        ])
  unfolding carry_on
  carry_on_line ends n new src (finished s') ih = ih s'
  carry_on_line ends n new src (stopped e) ih = refl
  carry_on_line ends n new src Ended.panicked ih = refl

  carry_on-scan :
      (ends : Option Error) (cut : Bool) (buf : Bytes) (n : ℕ) (s : S) (new src : Bytes)
      → length buf < buffer_capacity
      → length buf + length new ≤ buffer_capacity
      → carry_on ends src (scan f cut buf n s new) ≡ bytewise f ends buf n s (new ++ src)
  unfolding carry_on scan bytewise
  carry_on-scan ends cut buf n s [] src h k = ground (arith, h)
  carry_on-scan ends cut buf n s (b ∷ []) src h k = elim (Bool-cases (b == b'\n')) [
    | inl e ↦ simp e (
        carry_on_line ends (next_line n) [] src (call_line f buf n s)
          (λ s'. carry_on-scan ends true [] (next_line n) s' [] src (omega arith) (omega arith)))
    | inr e ↦ ground (arith, e, length-append buf (b ∷ []))
  ]
  carry_on-scan ends cut buf n s (b ∷ c ∷ new) src h k = elim (Bool-cases (b == b'\n')) [
    | inl e ↦ rw e (
        carry_on_line ends (next_line n) (c ∷ new) src (call_line f buf n s) (λ s'.
          carry_on-scan ends true [] (next_line n) s' (c ∷ new) src (omega arith)
            (omega (arith, k))))
    | inr e ↦ ground (
      arith,
      e,
      k,
      carry_on-scan ends cut (buf ++ b ∷ []) n s (c ∷ new) src
          (omega (arith, k, length-append buf (b ∷ [])))
          (omega (arith, k, length-append buf (b ∷ []))),
    )
  ]

  -- How long the buffer is after it has been gone through, and whether it was cut.
  Measured : (cut0 : Bool) → ℕ → Ended (Bool × Bytes × ℕ × S) T → Type 0
  Measured cut0 k (finished (true, line, n, s)) = length line + (if cut0 then 0 else 1) ≤ k
  Measured cut0 k (finished (false, line, n, s)) = (length line ≡ k) × (cut0 ≡ false)
  Measured cut0 k (stopped e) = Unit
  Measured cut0 k Ended.panicked = Unit

  Measured-cut :
      (k j : ℕ) (cut : Bool) (r : Ended (Bool × Bytes × ℕ × S) T)
      → Measured true k r
      → k + 1 ≤ j
      → Measured cut j r
  unfolding Measured
  Measured-cut k j cut (finished (true, line, n, s)) h le = ground (arith, h, le)
  Measured-cut k j cut (finished (false, line, n, s)) h le = ground (arith, h)
  Measured-cut k j cut (stopped e) h le = tt
  Measured-cut k j cut Ended.panicked h le = tt

  Measured-line :
      (cut : Bool) (n k : ℕ) (new : Bytes) (r : Ended S T)
      → ((s' : S) → Measured cut k (scan f true [] n s' new))
      → Measured cut k (elim r [
        | finished s' ↦ scan f true [] n s' new
        | stopped e ↦ stopped e
        | Ended.panicked ↦ Ended.panicked
      ])
  unfolding Measured
  Measured-line cut n k new (finished s') h = h s'
  Measured-line cut n k new (stopped e) h = tt
  Measured-line cut n k new Ended.panicked h = tt

  scan-Measured :
      (cut : Bool) (buf : Bytes) (n : ℕ) (s : S) (new : Bytes)
      → Measured cut (length buf + length new) (scan f cut buf n s new)
  unfolding scan Measured
  scan-Measured true buf n s [] = omega arith
  scan-Measured false buf n s [] = (omega arith, refl)
  scan-Measured cut buf n s (b ∷ new) = elim (Bool-cases (b == b'\n')) [
    | inl e ↦ rw e (
        Measured-line cut (next_line n) (length buf + suc (length new)) new (call_line f buf n s)
          (λ s'.
            Measured-cut (length new) _ cut _
              (subst (λ k. Measured true k (scan f true [] (next_line n) s' new)) (omega arith)
                (scan-Measured true [] (next_line n) s' new))
              (omega arith)))
    | inr e ↦ rw e (
        subst (λ k. Measured cut k (scan f cut (buf ++ b ∷ []) n s new))
          (omega (arith, length-append buf (b ∷ []))) (scan-Measured cut (buf ++ b ∷ []) n s new))
  ]

  -- A round of the outer loop, when what the inner one ends with is known. `full` is whether the
  -- read has filled the buffer.
  after_scan :
      (sizes : ℕ → ℕ) (ends : Option Error) (fuel : ℕ) (full : Bool) (src : Bytes)
      → Ended (Bool × Bytes × ℕ × S) T
      → Option (Ended (ℕ × S) T)
  after_scan sizes ends fuel full src r = elim r [
    | finished (cut, line, n', s') ↦ elim (not cut && full) [
      | true ↦ some (stopped (line_too_long n' buffer_capacity))
      | false ↦ process_loop f sizes ends fuel line n' s' src
    ]
    | stopped e ↦ some (stopped e)
    | Ended.panicked ↦ some Ended.panicked
  ]

  after_scan_lem :
      (sizes : ℕ → ℕ) (ends : Option Error) (fuel k : ℕ) (src : Bytes)
      (r : Ended (Bool × Bytes × ℕ × S) T)
      → Measured false k r
      → k ≤ buffer_capacity
      → ((line : Bytes) (n : ℕ) (s : S)
          → length line < buffer_capacity
          → process_loop f sizes ends fuel line n s src ≡ some (bytewise f ends line n s src))
      → after_scan sizes ends fuel (k == buffer_capacity) src r ≡ some (carry_on ends src r)
  unfolding after_scan carry_on Measured
  after_scan_lem sizes ends fuel k src (finished (true, line, n, s)) m le ih =
      ground (arith, m, le, ih line n s (omega (arith, m, le)))
  after_scan_lem sizes ends fuel k src (finished (false, line, n, s)) m le ih =
      elim (Bool-cases (k == buffer_capacity)) [
        | inl e ↦ ground (arith, e, m.0)
        | inr e ↦ ground (arith, e, m.0, ih line n s (ground (arith, e, m.0, le)))
      ]
  after_scan_lem sizes ends fuel k src (stopped e) m le ih = refl
  after_scan_lem sizes ends fuel k src Ended.panicked m le ih = refl

  -- A round, when what is read is known.
  after_read :
      (sizes : ℕ → ℕ) (ends : Option Error) (fuel : ℕ) (buf : Bytes) (n : ℕ) (s : S)
      → Bytes × Bytes
      → Option (Ended (ℕ × S) T)
  after_read sizes ends fuel buf n s got = elim (is_none_read got.0) [
    | true ↦ some (at_end f ends buf n s)
    | false ↦
        after_scan sizes ends fuel (length got.0 == buffer_capacity - length buf) got.1
          (scan f false buf n s got.0)
  ]

  process_loop-suc :
      (sizes : ℕ → ℕ) (ends : Option Error) (fuel : ℕ) (buf : Bytes) (n : ℕ) (s : S) (src : Bytes)
      → process_loop f sizes ends (suc fuel) buf n s src
        ≡ after_read sizes ends fuel buf n s
            (read_some (suc (sizes fuel)) (buffer_capacity - length buf) src)
  unfolding process_loop after_read after_scan
  process_loop-suc sizes ends fuel buf n s src = refl

  full_iff :
      (k l : ℕ) → l < buffer_capacity → (k == buffer_capacity - l) ≡ (l + k == buffer_capacity)
  full_iff k l h = ground (arith, h)

  after_read-eq-bytewise :
      (fuel : ℕ) (sizes : ℕ → ℕ) (ends : Option Error) (buf : Bytes) (n : ℕ) (s : S)
      (got : Bytes × Bytes)
      → length buf + length got.0 ≤ buffer_capacity
      → length buf < buffer_capacity
      → is_none_read got.0 ≡ is_none_read (got.0 ++ got.1)
      → (is_none_read got.0 ≡ false
          → (line : Bytes) (n : ℕ) (s : S) → length line < buffer_capacity
          → process_loop f sizes ends fuel line n s got.1 ≡ some (bytewise f ends line n s got.1))
      → after_read sizes ends fuel buf n s got ≡ some (bytewise f ends buf n s (got.0 ++ got.1))
  unfolding after_read
  after_read-eq-bytewise fuel sizes ends buf n s ([], []) k h g ih = unfold bytewise in refl
  after_read-eq-bytewise fuel sizes ends buf n s ([], c ∷ src) k h g ih = cc
  after_read-eq-bytewise fuel sizes ends buf n s (c ∷ new, src) k h g ih =
      ap (λ full. after_scan sizes ends fuel full src (scan f false buf n s (c ∷ new)))
        (full_iff (suc (length new)) (length buf) h)
      ∙ after_scan_lem sizes ends fuel _ src _ (scan-Measured false buf n s (c ∷ new)) k (ih refl)
      ∙ ap some (carry_on-scan ends false buf n s (c ∷ new) src h k)

  gets_shorter :
      (got : Bytes × Bytes) (src : Bytes) (fuel : ℕ)
      → got.0 ++ got.1 ≡ src
      → length src < suc fuel
      → is_none_read got.0 ≡ false
      → length got.1 < fuel
  gets_shorter ([], rest) src fuel e b g = cc
  gets_shorter (c ∷ new, rest) src fuel e b g =
      omega (arith, ap length e, length-append new rest, b)

  process_loop-eq-bytewise :
      (fuel : ℕ) (sizes : ℕ → ℕ) (ends : Option Error) (buf : Bytes) (n : ℕ) (s : S) (src : Bytes)
      → length src < fuel
      → length buf < buffer_capacity
      → process_loop f sizes ends fuel buf n s src ≡ some (bytewise f ends buf n s src)
  process_loop-eq-bytewise zero sizes ends buf n s src h k = absurd (omega arith)
  process_loop-eq-bytewise (suc fuel) sizes ends buf n s src h k =
      let room = buffer_capacity - length buf in
      let got = read_some (suc (sizes fuel)) room src in
      let a = read_some-append (suc (sizes fuel)) room src in
      process_loop-suc sizes ends fuel buf n s src
      ∙ after_read-eq-bytewise fuel sizes ends buf n s got
          (omega (arith, length-read_some (suc (sizes fuel)) room src)) k
          (read_gives (sizes fuel) room src (omega arith) ∙ ap is_none_read (sym a))
          (λ g line n' s' l.
            process_loop-eq-bytewise fuel sizes ends line n' s' got.1
              (gets_shorter got src fuel a h g) l)
      ∙ ap (λ bs. some (bytewise f ends buf n s bs)) a

  -- With `call_line` and `at_end` for each line and for the end.
  pub process_lines_utf8-eq-each_called :
      (sizes : ℕ → ℕ) (ends : Option Error) (fuel : ℕ) (s : S) (src : Bytes)
      → length src < fuel
      → process_lines_utf8 f sizes ends fuel s src
        ≡ some (each_called f ends 1 s (split_from [] src).0 (split_from [] src).1)
  unfolding process_lines_utf8
  process_lines_utf8-eq-each_called sizes ends fuel s src h =
      process_loop-eq-bytewise fuel sizes ends [] 1 s src h (omega arith)
      ∙ ap some (bytewise-eq-each_called f ends [] 1 s src (omega arith))

  -- However the input comes in pieces, reading its lines ends, with as many rounds as it has bytes
  -- and one, and does what the function does on each of its lines in turn: it stops at the first
  -- that fails, is not UTF-8 or does not fit into the buffer, or with the error of the input.
  pub process_lines_utf8-eq-each_line :
      (sizes : ℕ → ℕ) (ends : Option Error) (fuel : ℕ) (s : S) (src : Bytes)
      → length src < fuel
      → process_lines_utf8 f sizes ends fuel s src
        ≡ some (each_line f ends 1 s (split_from [] src).0 (split_from [] src).1)
  process_lines_utf8-eq-each_line sizes ends fuel s src h =
      process_lines_utf8-eq-each_called sizes ends fuel s src h
      ∙ ap some (each_called-each_line f ends 1 s (split_from [] src).0 (split_from [] src).1)
