-- ===== src/Client/Screen/Dialogs.antt =====
-- lab_2/chat/src/client/events/readinput_event.c, and the callbacks of its dialogs in gui.c and controller.c.
-- The keys are those that `wgetch` answers in the dialogs, one after the other; those that the main screen reads
-- between two dialogs are not among them.
pub mod Typed
pub mod Kick
pub mod Ends
use acos_chat.Base.{
  ℕ, zero, suc, Bool, true, false, List, [], ◌∷◌, ◌++◌, Option, none, some, ◌>>=◌, ◌||◌,
  if◌then◌else◌, codes,
}
use acos_chat.Message.{int32, c_str}
use acos_chat.Server.{message_kick}
use acos_chat.Client.{Controller, Effect, sends, asks}
use acos_chat.Client.Misc.{str_strip}
use acos_chat.Client.Events.{login_callback_failure}
use acos_chat.Client.Control.{
  connect_to_server, split_port, port_of, get_server_addr_callback_success,
  get_server_addr_callback_failure, get_username_callback_success, login_callback_success,
}
use acos_chat.Client.Screen.{
  Key, left, right, backspace, alternate_backspace, dc, enter, is_close_app, Form, prev_char,
  next_char, del_char, next_field, types, Dialog, address, username, password, kick_uid,
  kick_reason,
}

abbrev pub is_enter : Key → Bool
is_enter enter = true
is_enter key = false

-- The text entered, or none where the user presses F10.
abbrev pub Answer : Type 0
Answer = Option (List ℕ)

-- The functions of the C library that the callbacks call, `atoi` on the bits of the `int`.
pub record Env : Type 0 where
  pub socket : Option ℕ
  pub gethostbyname : List ℕ → Option ℕ
  pub connect : ℕ → ℕ → ℕ → Bool
  pub atoi : List ℕ → ℕ

module _ {F : Type 0} (form : Form F) where
  -- The `switch` of `readinput_event_handler`.
  unfoldable pub dialog_key : Key → F → F
  dialog_key left f = form.form_driver f prev_char
  dialog_key right f = form.form_driver f next_char
  dialog_key backspace f = form.form_driver (form.form_driver f prev_char) del_char
  dialog_key alternate_backspace f = form.form_driver (form.form_driver f prev_char) del_char
  dialog_key dc f = form.form_driver f del_char
  dialog_key key f = form.form_driver f (types key)

  abbrev pub text_of : F → List ℕ
  text_of f = str_strip (form.field_buffer (form.form_driver f next_field))

  -- The loop and what it hands to the callbacks, with the keys behind it; none waits for a key.
  unfoldable pub read_keys : F → List Key → Option (Answer × List Key)
  read_keys f [] = none
  read_keys f (key ∷ keys) =
      let rest = read_keys (dialog_key key f) keys in
      if is_enter key
      then some (some (text_of f), keys)
      else if is_close_app key
      then some (none, keys)
      else rest

  unfoldable pub readinput : List Key → Option (Answer × List Key)
  readinput keys = read_keys form.new_form keys

-- `get_kick_reason_success`, with the text for the uid.
unfoldable pub get_kick_reason_success : (List ℕ → ℕ) → List ℕ → List ℕ → List Effect
get_kick_reason_success atoi s uid_str =
    sends (record { msg_type = message_kick; tokens = int32 (atoi uid_str) ∷ c_str s ∷ [] }) ∷ []

unfoldable pub get_kick_uid_callback : List ℕ → List Effect
get_kick_uid_callback s = asks (codes "Enter kicking reason:") false ∷ []

-- The dialog that follows on a connection.
abbrev pub after_address : Option ℕ → Option Dialog
after_address none = none
after_address (some sockid) = some username

-- The callbacks: the controller, its effects, and the dialog that they ask for.
unfoldable pub answered :
    Env → ℕ → Dialog → Answer → Controller → Controller × List Effect × Option Dialog
answered env now address (some str) client =
    let parts = split_port str in
    let done =
      get_server_addr_callback_success env.socket env.gethostbyname env.connect env.atoi now str
        client in
    (
      done.0,
      done.1,
      after_address (
          connect_to_server env.socket env.gethostbyname env.connect parts.0
            (port_of env.atoi parts.1)),
    )
answered env now address none client = (client, get_server_addr_callback_failure now, none)
answered env now username (some str) client =
    (client, get_username_callback_success str, some (password str))
answered env now username none client = (client, login_callback_failure now, none)
answered env now (password login) (some passwd) client =
    (client, login_callback_success passwd login, none)
answered env now (password login) none client = (client, login_callback_failure now, none)
answered env now kick_uid (some s) client = (client, get_kick_uid_callback s, some (kick_reason s))
answered env now kick_uid none client = (client, [], none)
answered env now (kick_reason uid_str) (some s) client =
    (client, get_kick_reason_success env.atoi s uid_str, none)
answered env now (kick_reason uid_str) none client = (client, [], none)

abbrev pub Session : Type 0
Session = Controller × List Effect × List Key

-- A dialog and those that follow, so many at most.
unfoldable pub dialogs :
    {F : Type 0} → Form F → Env → ℕ → ℕ → Option Dialog → List Key → Controller → Option Session
dialogs form env now fuel none keys client = some (client, [], keys)
dialogs form env now zero (some dialog) keys client = none
dialogs form env now (suc fuel) (some dialog) keys client = do
  read ← readinput form keys
  let done = answered env now dialog read.0 client
  rest ← dialogs form env now fuel done.2 read.1 done.0
  some (rest.0, done.1 ++ rest.1, rest.2)
