-- ===== src/Client/Events.antt =====
-- lab_2/chat/src/client/events: the handlers of the controller's loop. `decimal` is what `asprintf` prints
-- for `%d`, on the bits of the `int`.
pub mod Trace
use acos_chat.Base.{
  ℕ, List, [], ◌∷◌, ◌++◌, Bool, true, false, not, ◌||◌, Option, none, some, ◌>>=◌, ◌==◌,
  if◌then◌else◌, codes,
}
use acos_chat.Message.{PascalString, Unpacked, c_str, read_int}
use acos_chat.Server.{message_regular, message_list}
use acos_chat.Server.Process.{p_str_to_c_str}
use acos_chat.Client.{
  Controller, Event, kicked, listed, status, display, Effect, displays, sends, exits, internal,
}
use acos_chat.Client.Misc.{status_str, ask_for_history}

abbrev pub is_none : Option ℕ → Bool
is_none none = true
is_none (some n) = false

-- `send_message_to_server_job_handler`
unfoldable pub on_text : ℕ → List ℕ → Controller → List Effect
on_text now text client =
    if is_none client.sockid || not client.logged_in
    then internal now (codes "Cannot send message: no connection") ∷ []
    else sends (record { msg_type = message_regular; tokens = c_str text ∷ [] }) ∷ []

-- `login_callback_failure`
unfoldable pub login_callback_failure : ℕ → List Effect
login_callback_failure now = internal now (codes "Cannot login, please restart client") ∷ exits ∷ []

-- `hangup_event_handler`
unfoldable pub on_hangup : ℕ → List Effect
on_hangup now =
    internal now (codes "Server has been disconnected, please restart client.") ∷ exits ∷ []

-- `kick_event_handler`
unfoldable pub on_kicked : ℕ → List ℕ → List Effect
on_kicked now reason =
    internal now (codes "You have been kicked, reason: \"" ++ reason ++ codes "\"") ∷ exits ∷ []

module _ (decimal : ℕ → List ℕ) where
  abbrev pub user_line : ℕ → List ℕ → ℕ → Effect
  user_line now user id = displays (record {
    msg_type = message_list;
    author = none;
    text = codes "User \"" ++ user ++ codes "\", id = " ++ decimal id;
    tstamp = now;
  })

  -- The loop of `list_event_handler`; none is a read of a token or of bytes that are not there.
  unfoldable pub on_listed : ℕ → List PascalString → Option (List Effect)
  on_listed now [] = some []
  on_listed now (token ∷ []) = none
  on_listed now (token ∷ user ∷ tokens) = do
    id ← read_int token.bytes
    lines ← on_listed now tokens
    some (user_line now (p_str_to_c_str user) id ∷ lines)

  -- `status_event_handler`, on the bits of the status.
  unfoldable pub on_status : ℕ → ℕ → Controller → Controller × List Effect
  on_status now code client =
      if client.logged_in
      then (
        client,
        internal now (
              codes "Recieved status code "
              ++ decimal code
              ++ codes " ("
              ++ status_str code
              ++ codes ")")
            ∷ [],
      )
      else if code == 0
      then (record client { logged_in = true }, ask_for_history ∷ [])
      else (client, login_callback_failure now)
