-- ===== src/Client/Screen/Lines.antt =====
-- The part of the pad that is shown.
use acos_chat.Base.{ℕ, ◌≡◌, false, List, [], ◌∷◌, Option, none, some, Bool-cases, inl, inr, arith}
use acos_chat.Base.Int.{ℤ, pos, ◌≤ℤ◌, ◌-ℤ◌}
use acos_chat.Client.{ParsedMessage}
use acos_chat.Client.Screen.{
  Key, down, up, left, right, npage, ppage, resize, backspace, alternate_backspace, dc, enter,
  escape, print_help, list_users, kick_users, close_app, other, Form, Screen, message_pad_height,
  min, max, gui_init_windows, driven, on_key, maybe_key, redraw, on_display, on_event, gui_round,
  gui_thread, Input, closes,
}

-- What is shown lies on the pad, but that a pad lower than the window begins at its first line.
abbrev pub OnPad : {F : Type 0} → Screen F → Type 0
OnPad s = (pos 0 ≤ℤ s.line) × (s.line ≤ℤ max (pos 0) (message_pad_height -ℤ s.messages_height))

-- It does, or is drawn again before it is shown.
abbrev pub IsDrawn : {F : Type 0} → Screen F → Type 0
IsDrawn s = s.redraw_messages ≡ false → OnPad s

clamped :
    (top line : ℤ)
    → (pos 0 ≤ℤ max (pos 0) (min top line)) × (max (pos 0) (min top line) ≤ℤ max (pos 0) top)
clamped top line = (ground arith, ground arith)

module _ {F : Type 0} (form : Form F) where
  on_key-IsDrawn :
      (now rows : ℕ) (key : Key) (s : Screen F) → IsDrawn s → IsDrawn (on_key form now rows key s).0
  unfolding on_key driven gui_init_windows
  on_key-IsDrawn now rows down s d = d
  on_key-IsDrawn now rows up s d = d
  on_key-IsDrawn now rows left s d = d
  on_key-IsDrawn now rows right s d = d
  on_key-IsDrawn now rows npage s d = λ e. absurd (cc e)
  on_key-IsDrawn now rows ppage s d = λ e. absurd (cc e)
  on_key-IsDrawn now rows resize s d = λ e. absurd (cc e)
  on_key-IsDrawn now rows backspace s d = d
  on_key-IsDrawn now rows alternate_backspace s d = d
  on_key-IsDrawn now rows dc s d = d
  on_key-IsDrawn now rows enter s d = d
  on_key-IsDrawn now rows escape s d = d
  on_key-IsDrawn now rows print_help s d = d
  on_key-IsDrawn now rows list_users s d = d
  on_key-IsDrawn now rows kick_users s d = d
  on_key-IsDrawn now rows close_app s d = d
  on_key-IsDrawn now rows (other ch) s d = d

  maybe_key-IsDrawn :
      (now rows : ℕ) (key : Option Key) (s : Screen F)
      → IsDrawn s
      → IsDrawn (maybe_key form now rows key s).0
  unfolding maybe_key
  maybe_key-IsDrawn now rows none s d = d
  maybe_key-IsDrawn now rows (some key) s d = on_key-IsDrawn now rows key s d

  on_event-IsDrawn :
      (ctime : ℕ → List ℕ) (event : Option (Option ParsedMessage)) (s : Screen F)
      → IsDrawn s
      → IsDrawn (on_event form ctime event s).0
  unfolding on_event on_display
  on_event-IsDrawn ctime none s d = d
  on_event-IsDrawn ctime (some none) s d = λ e. absurd (cc e)
  on_event-IsDrawn ctime (some (some msg)) s d = λ e. absurd (cc e)

  redraw-OnPad : (s : Screen F) → IsDrawn s → OnPad (redraw form s).0
  unfolding redraw
  redraw-OnPad s d = elim (Bool-cases s.redraw_messages) [
    | inl e ↦ rw e (clamped (message_pad_height -ℤ s.messages_height) s.line)
    | inr e ↦ rw e (d e)
  ]

  gui_round-OnPad :
      (ctime : ℕ → List ℕ) (input : Input) (s : Screen F)
      → IsDrawn s
      → OnPad (gui_round form ctime input s).0
  unfolding gui_round
  gui_round-OnPad ctime input s d =
      redraw-OnPad _ (
        on_event-IsDrawn ctime input.event _ (maybe_key-IsDrawn input.now input.rows input.key s d))

  rounds-OnPad :
      (ctime : ℕ → List ℕ) (inputs : List Input) (s : Screen F)
      → OnPad s
      → OnPad (gui_thread form ctime inputs s).0
  unfolding gui_thread
  rounds-OnPad ctime [] s d = d
  rounds-OnPad ctime (input ∷ inputs) s d = elim (Bool-cases (closes input.key)) [
    | inl e ↦ rw e d
    | inr e ↦ rw e (rounds-OnPad ctime inputs _ (gui_round-OnPad ctime input s (λ f. d)))
  ]

  -- After the first round of the screen's loop that is not ended by F10, and any further rounds
  -- with any keys, changes of the terminal's size, messages and dialogs, the shown part of the
  -- messages begins on a line of the pad from 0 on, and ends on the pad where the window is not
  -- higher than the pad.
  pub gui_thread-OnPad :
      (ctime : ℕ → List ℕ) (rows : ℕ) (first : Input) (inputs : List Input)
      → closes first.key ≡ false
      → OnPad (gui_thread form ctime (first ∷ inputs) (gui_init_windows form rows)).0
  unfolding gui_thread gui_init_windows
  gui_thread-OnPad ctime rows first inputs e = rw e (
      rounds-OnPad ctime inputs _
        (gui_round-OnPad ctime first (gui_init_windows form rows) (λ f. absurd (cc f))))
