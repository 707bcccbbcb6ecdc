-- ===== src/Server.antt =====
-- lab_2/chat/src/server: the constants and what the handlers produce. `main`, the threads and the
-- sockets are not here: a handler returns the new state and its effects in order.
pub mod Misc
pub mod Database
pub mod Sql
pub mod Process
pub mod Listener
pub mod Close
pub mod Broadcasts
pub mod Workers
pub mod Input
pub mod Rounds
pub mod Tables
pub mod Start
pub mod System
use acos_chat.Base.{ℕ, List, Option, codes}
use acos_chat.Message.{Message}

abbrev pub null_uid : ℕ
null_uid = 0

abbrev pub root_uid : ℕ
root_uid = 1

abbrev pub max_history_length : ℕ
max_history_length = 50

-- `MSG_STATUS_*`
abbrev pub status_ok : ℕ
status_ok = 0

abbrev pub status_invalid_type : ℕ
status_invalid_type = 1

abbrev pub status_unauthorized : ℕ
status_unauthorized = 2

abbrev pub status_access_error : ℕ
status_access_error = 5

abbrev pub status_invalid_msg : ℕ
status_invalid_msg = 6

-- `broadcast_message_event_t` without its header.
pub record Broadcast : Type 0 where
  pub tstamp : ℕ
  pub kind : ℕ
  pub login : Option (List ℕ)
  pub text : List ℕ
  pub uid : ℕ

-- The message types.
abbrev pub message_regular : ℕ
message_regular = 114

abbrev pub message_meta : ℕ
message_meta = 109

abbrev pub message_status : ℕ
message_status = 115

abbrev pub message_history : ℕ
message_history = 104

abbrev pub message_list : ℕ
message_list = 108

abbrev pub message_kick : ℕ
message_kick = 107

abbrev pub message_login : ℕ
message_login = 105

abbrev pub message_logout : ℕ
message_logout = 111

-- What a handler does beyond its own state: `send_status_code`, `send_message`, an event for the
-- controller's loop, an event for the listener's loop.
pub data Effect : Type 0 where
  sends_status : ℕ → ℕ → Effect
  sends : ℕ → Message → Effect
  broadcasts : Broadcast → Effect
  closes : ℕ → Effect
