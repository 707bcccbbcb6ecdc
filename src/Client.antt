-- ===== src/Client.antt =====
-- lab_2/chat/src/client: what the parts of the client share. The screen, the terminal and the sockets
-- are not here: a handler returns the new state and its effects in order.
pub mod Listener
pub mod Misc
pub mod Events
pub mod Control
pub mod Received
pub mod Screen
pub mod Polls
use acos_chat.Base.{ℕ, List, [], ◌∷◌, Bool, Option, none, codes}
use acos_chat.Message.{Message, Unpacked}

-- `parsed_message_t`; no author is NULL.
pub record ParsedMessage : Type 0 where
  pub msg_type : ℕ
  pub author : Option (List ℕ)
  pub text : List ℕ
  pub tstamp : ℕ

abbrev pub message_internal : ℕ
message_internal = 64

-- `client_controller_data_t` without the loops; no socket is -1.
pub record Controller : Type 0 where
  pub sockid : Option ℕ
  pub logged_in : Bool

-- What the listener sends: to the loop of the screen a message to display, to the loop of the controller
-- a reason for a kick, the message of a list of users, the bits of a status.
pub data Event : Type 0 where
  display : ParsedMessage → Event
  kicked : List ℕ → Event
  listed : Unpacked → Event
  status : ℕ → Event

-- What a handler does beyond its own state: `send_event` of a message to display, `send_message` to the
-- server, a dialog with its prompt that hides what is typed or not, and the urgent `EXIT_EVT`.
pub data Effect : Type 0 where
  displays : ParsedMessage → Effect
  sends : Message → Effect
  asks : List ℕ → Bool → Effect
  exits : Effect

-- A message of the client itself at the time `now`.
abbrev pub internal : ℕ → List ℕ → Effect
internal now text =
    displays (record { msg_type = message_internal; author = none; text = text; tstamp = now })
