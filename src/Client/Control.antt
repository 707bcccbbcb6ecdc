-- ===== src/Client/Control.antt =====
-- lab_2/chat/src/client/controller.c: from the address of the server to the login, and the end. The
-- functions of the C library are arguments.
pub mod Tables
use acos_chat.Base.{
  ℕ, ◌+◌, ◌^◌, ◌%◌, List, [], ◌∷◌, ◌++◌, Bool, true, false, Option, none, some, ◌==◌, if◌then◌else◌,
  codes,
}
use acos_chat.Message.{c_str}
use acos_chat.TsMap.Ops
use acos_chat.TsMap.Ops.{TsMap}
use acos_chat.EventLoop.{EventLoop, event_loop_init}
use acos_chat.Server.{message_login, message_logout}
use acos_chat.Client.{Controller, Effect, sends, exits, asks, internal}

-- The numbers of the handlers and deleters, and the types of their events.
abbrev pub send_message_to_server_job_type : ℕ
send_message_to_server_job_type = 3

abbrev pub hangup_event_type : ℕ
hangup_event_type = 4

abbrev pub kick_event_type : ℕ
kick_event_type = 5

abbrev pub list_event_type : ℕ
list_event_type = 6

abbrev pub status_event_type : ℕ
status_event_type = 7

-- The functions are numbered by the types of their events, from 100 on, the deleters from 200 on.
abbrev pub handler_of : ℕ → ℕ
handler_of type = 100 + type

abbrev pub deleter_of : ℕ → ℕ
deleter_of type = 200 + type

abbrev pub with_entry : TsMap → ℕ → ℕ → TsMap
with_entry m type f = (Ops.insert m type f).0

unfoldable pub init_handlers : TsMap → TsMap
init_handlers m =
    let job = with_entry m send_message_to_server_job_type (handler_of 3) in
    let list = with_entry job list_event_type (handler_of 6) in
    let kick = with_entry list kick_event_type (handler_of 5) in
    let hangup = with_entry kick hangup_event_type (handler_of 4) in
    with_entry hangup status_event_type (handler_of 7)

unfoldable pub init_deleters : TsMap → TsMap
init_deleters m =
    let job = with_entry m send_message_to_server_job_type (deleter_of 3) in
    let list = with_entry job list_event_type (deleter_of 6) in
    let kick = with_entry list kick_event_type (deleter_of 5) in
    with_entry kick hangup_event_type (deleter_of 4)

-- `client_controller_init`
unfoldable pub init_loop : {P : Type 0} → EventLoop P
init_loop {P} =
    let el : EventLoop P = event_loop_init in
    record el { handlers = init_handlers el.handlers; deleters = init_deleters el.deleters }

unfoldable pub init_controller : Controller
init_controller = record { sockid = none; logged_in = false }

-- The bytes that `client_controller_destroy` sends.
unfoldable pub logout_bytes : Option ℕ → List ℕ
logout_bytes none = []
logout_bytes (some sockid) = message_logout ∷ 0 ∷ 0 ∷ 0 ∷ 0 ∷ []

-- `connect_to_server`: the new socket where all calls succeed.
unfoldable pub connect_to_server :
    Option ℕ → (List ℕ → Option ℕ) → (ℕ → ℕ → ℕ → Bool) → List ℕ → ℕ → Option ℕ
connect_to_server none gethostbyname connect name port = none
connect_to_server (some sockid) gethostbyname connect name port = elim (gethostbyname name) [
  | none ↦ none
  | some address ↦ if connect sockid address (port % 2 ^ 16) then some sockid else none
]

-- The bytes before the first ':', and those behind it, if there is one.
unfoldable pub split_port : List ℕ → List ℕ × Option (List ℕ)
split_port [] = ([], none)
split_port (c ∷ str) =
    let rest = split_port str in if c == 58 then ([], some str) else (c ∷ rest.0, rest.1)

-- The port of an address, on its bits.
unfoldable pub port_of : (List ℕ → ℕ) → Option (List ℕ) → ℕ
port_of atoi none = 1337
port_of atoi (some digits) = atoi digits

unfoldable pub get_server_addr_callback_failure : ℕ → List Effect
get_server_addr_callback_failure now =
    internal now (codes "Cannot connect to server, please restart client") ∷ exits ∷ []

-- The rest of `get_server_addr_callback_success`.
unfoldable pub connected : ℕ → Controller → Option ℕ → Controller × List Effect
connected now client none = (client, get_server_addr_callback_failure now)
connected now client (some sockid) =
    (record client { sockid = some sockid }, asks (codes "Enter username:") false ∷ [])

unfoldable pub get_server_addr_callback_success :
    Option ℕ
    → (List ℕ → Option ℕ)
    → (ℕ → ℕ → ℕ → Bool)
    → (List ℕ → ℕ)
    → ℕ
    → List ℕ
    → Controller
    → Controller × List Effect
get_server_addr_callback_success socket gethostbyname connect atoi now str client =
    let parts = split_port str in
    connected now client
      (connect_to_server socket gethostbyname connect parts.0 (port_of atoi parts.1))

unfoldable pub get_username_callback_success : List ℕ → List Effect
get_username_callback_success str = asks (codes "Enter password:") true ∷ []

unfoldable pub login_callback_success : List ℕ → List ℕ → List Effect
login_callback_success password login =
    sends (record { msg_type = message_login; tokens = c_str login ∷ c_str password ∷ [] }) ∷ []

-- The first dialog of `client_controller_thread`.
unfoldable pub first_dialog : Effect
first_dialog = asks (codes "Enter server address (specify port if it's not 1337):") false
