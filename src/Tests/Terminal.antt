-- ===== src/Tests/Terminal.antt =====
-- The line that is edited, at concrete keys.
use dust_devil.Base.{ℕ, ◌≡◌, Bool, true, some, [], ◌∷◌, ltb}
use dust_devil.Tui.TextEntry.{Answers, KeyCode, HandleEventStatus, OnEnterResult, handle_key}
use dust_devil.Tui.TextEntry.Laws.{Zipper, zipper, entry_of}
use dust_devil.Tui.TextEntry.Edited.{edited}
use dust_devil.Tui.TextEntry.Refine.{handle_key-edited}

-- ASCII letters and what stands behind them.
abbrev is_word : ℕ → Bool
is_word c = ltb 64 c

abbrev agrees : Answers
agrees = record { on_enter = OnEnterResult.handled; on_char = true; on_text_changed = true }

-- "né a", with the cursor behind the blank.
abbrev between : Zipper
between = zipper (32 ∷ 233 ∷ 110 ∷ []) (97 ∷ [])

-- Control and Backspace remove the word and the blank, three bytes and the blank.
handle_key-edited_example :
    handle_key is_word true KeyCode.backspace true agrees (entry_of 20 between)
    ≡ some (HandleEventStatus.handled, entry_of 20 (zipper [] (97 ∷ [])))
unfolding edited
handle_key-edited_example = handle_key-edited is_word 20 KeyCode.backspace true agrees between
