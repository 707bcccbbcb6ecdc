-- ===== src/Client/Screen.antt =====
-- lab_2/chat/src/client/gui.c and events/display_parsed_message_job.c: the keys of the main screen, the
-- messages, and what is refreshed. ncurses is a parameter: its keys have their names, a form is its state
-- with `form_driver` and `field_buffer`, and windows are not here. Prints and refreshes are effects.
pub mod Dialogs
pub mod Lines
use acos_chat.Base.{
  ℕ, Bool, true, false, List, [], ◌∷◌, ◌++◌, Option, none, some, ◌==◌, ◌||◌, if◌then◌else◌, codes,
}
use acos_chat.Base.Int.{ℤ, pos, ltb_ℤ, ◌+ℤ◌, ◌-ℤ◌}
use acos_chat.Message.{Message}
use acos_chat.Server.{message_regular, message_history, message_meta, message_list}
use acos_chat.Server.Misc.{parse_tstamp}
use acos_chat.Client.{ParsedMessage, message_internal}
use acos_chat.Client.Misc.{str_strip, ask_for_userlist}
use acos_chat.Client

-- What `wgetch` answers, but for ERR.
pub data Key : Type 0 where
  down up left right npage ppage resize backspace alternate_backspace dc enter escape print_help
        list_users kick_users close_app :
      Key
  other : ℕ → Key

abbrev pub is_close_app : Key → Bool
is_close_app close_app = true
is_close_app key = false

-- The requests of `form_driver`, or a key.
pub data Request : Type 0 where
  next_line prev_line prev_char next_char del_char next_field clr_field : Request
  types : Key → Request

pub record Form (F : Type 0) : Type 0 where
  pub form_driver : F → Request → F
  pub field_buffer : F → List ℕ
  pub new_form : F

abbrev pub message_pad_height : ℤ
message_pad_height = pos 2000

-- `gui_data_t` without its windows and loops.
pub record Screen (F : Type 0) : Type 0 where
  pub messages_height : ℤ
  pub line : ℤ
  pub input_form : F
  pub redraw_messages : Bool

-- The dialogs of `new_readinput_event`, by their callbacks, with the text that the callbacks' environment
-- holds: the three of controller.c and the two of gui.c.
pub data Dialog : Type 0 where
  address username : Dialog
  password : List ℕ → Dialog
  kick_uid : Dialog
  kick_reason : List ℕ → Dialog

-- What happens in a round: the time, the rows of the window after a change of the terminal's size, what
-- `wgetch` answers, and what the iteration of the screen's loop takes: nothing, a message, or a dialog.
pub record Input : Type 0 where
  pub now : ℕ
  pub rows : ℕ
  pub key : Option Key
  pub event : Option (Option ParsedMessage)

abbrev pub closes : Option Key → Bool
closes none = false
closes (some key) = is_close_app key

-- What the screen does: a message or a dialog for its own loop, a text for the controller's loop, a
-- message to the server, a print to the pad with its first line in bold, the pad from a line on.
pub data Output : Type 0 where
  displays : ParsedMessage → Output
  asks : List ℕ → Bool → Dialog → Output
  says : List ℕ → Output
  effects : Client.Effect → Output
  prints : List ℕ → List ℕ → Output
  refreshes : ℤ → Output

abbrev pub help_msg : List ℕ
help_msg =
    codes "Press F1 to read this help;\nPress F5 to see list of users;\n"
    ++ codes "Press F2 to kick user (you can do it only if you're root);\nPress F10 to quit;\n"
    ++ codes "Press Enter to send message.\n"
    ++ codes "Warning! If you see '[[A' when you press <F1>, check your terminal settings.\n"
    ++ codes "It's possible that this client cannot recognize escape key sequences.\n"
    ++ codes "More info: https://stackoverflow.com/questions/21843395"

abbrev pub help : ℕ → Output
help now =
    displays (record { msg_type = message_internal; author = none; text = help_msg; tstamp = now })

abbrev pub min : ℤ → ℤ → ℤ
min a b = if ltb_ℤ a b then a else b

abbrev pub max : ℤ → ℤ → ℤ
max a b = if ltb_ℤ a b then b else a

-- The author that `gui_print_message` names; NULL is printed as `(null)`.
unfoldable pub author_of : ParsedMessage → Option (List ℕ)
author_of msg =
    if (msg.msg_type == message_regular) || (msg.msg_type == message_history)
    then msg.author
    else if msg.msg_type == message_meta
    then some (codes "<SERVER>")
    else if msg.msg_type == message_internal
    then some (codes "<INTERNAL>")
    else if msg.msg_type == message_list
    then some (codes "<USERLIST>")
    else none

abbrev pub printed : Option (List ℕ) → List ℕ
printed none = codes "(null)"
printed (some text) = text

-- `ctime` of the seconds is an argument.
unfoldable pub gui_print_message : (ℕ → List ℕ) → ParsedMessage → Output
gui_print_message ctime msg =
    prints (printed (author_of msg) ++ codes ", " ++ ctime (parse_tstamp msg.tstamp).0)
      (msg.text ++ codes "\n")

module _ {F : Type 0} (form : Form F) where
  -- `gui_init_windows`, where the window of the messages has so many rows.
  unfoldable pub gui_init_windows : ℕ → Screen F
  gui_init_windows rows =
      let height = pos rows -ℤ pos 2 in
      record {
        messages_height = height;
        line = message_pad_height -ℤ height;
        input_form = form.new_form;
        redraw_messages = true;
      }

  unfoldable pub driven : Request → Screen F → Screen F
  driven request s = record s { input_form = form.form_driver s.input_form request }

  -- The `switch` of `gui_thread`; `rows` is the height after a change of the terminal's size.
  unfoldable pub on_key : ℕ → ℕ → Key → Screen F → Screen F × List Output
  on_key now rows down s = (driven next_line s, [])
  on_key now rows up s = (driven prev_line s, [])
  on_key now rows left s = (driven prev_char s, [])
  on_key now rows right s = (driven next_char s, [])
  on_key now rows npage s = (record s { line = s.line +ℤ pos 1; redraw_messages = true }, [])
  on_key now rows ppage s = (record s { line = s.line -ℤ pos 1; redraw_messages = true }, [])
  on_key now rows resize s = (gui_init_windows rows, refreshes (gui_init_windows rows).line ∷ [])
  on_key now rows backspace s = (driven del_char (driven prev_char s), [])
  on_key now rows alternate_backspace s = (driven del_char (driven prev_char s), [])
  on_key now rows dc s = (driven del_char s, [])
  on_key now rows enter s =
      let entered = driven next_field s in
      (driven clr_field entered, says (str_strip (form.field_buffer entered.input_form)) ∷ [])
  on_key now rows escape s = (s, help now ∷ [])
  on_key now rows print_help s = (s, help now ∷ [])
  on_key now rows list_users s = (s, effects ask_for_userlist ∷ [])
  on_key now rows kick_users s = (s, asks (codes "Enter UID:") false kick_uid ∷ [])
  on_key now rows close_app s = (driven (types close_app) s, [])
  on_key now rows (other ch) s = (driven (types (other ch)) s, [])

  -- ERR is no key.
  unfoldable pub maybe_key : ℕ → ℕ → Option Key → Screen F → Screen F × List Output
  maybe_key now rows none s = (s, [])
  maybe_key now rows (some key) s = on_key now rows key s

  -- `if (data->redraw_messages)`
  unfoldable pub redraw : Screen F → Screen F × List Output
  redraw s =
      if s.redraw_messages
      then (
        record s {
          redraw_messages = false;
          line = max (pos 0) (min (message_pad_height -ℤ s.messages_height) s.line);
        },
        refreshes (max (pos 0) (min (message_pad_height -ℤ s.messages_height) s.line)) ∷ [],
      )
      else (s, [])

  -- `display_parsed_message_job_handler`
  unfoldable pub on_display : (ℕ → List ℕ) → ParsedMessage → Screen F → Screen F × List Output
  on_display ctime msg s = (record s { redraw_messages = true }, gui_print_message ctime msg ∷ [])

  unfoldable pub on_event :
      (ℕ → List ℕ) → Option (Option ParsedMessage) → Screen F → Screen F × List Output
  on_event ctime none s = (s, [])
  on_event ctime (some (some msg)) s = on_display ctime msg s
  on_event ctime (some none) s = (record s { redraw_messages = true }, [])

  -- A round of the loop of `gui_thread`.
  unfoldable pub gui_round : (ℕ → List ℕ) → Input → Screen F → Screen F × List Output
  gui_round ctime input s =
      let pressed = maybe_key input.now input.rows input.key s in
      let taken = on_event ctime input.event pressed.0 in
      let drawn = redraw taken.0 in (drawn.0, pressed.1 ++ (taken.1 ++ drawn.1))

  -- `gui_thread`, until F10 or the last of these rounds.
  unfoldable pub gui_thread : (ℕ → List ℕ) → List Input → Screen F → Screen F × List Output
  gui_thread ctime [] s = (s, [])
  gui_thread ctime (input ∷ inputs) s =
      let first = gui_round ctime input s in
      let rest = gui_thread ctime inputs first.0 in
      if closes input.key then (s, []) else (rest.0, first.1 ++ rest.1)
