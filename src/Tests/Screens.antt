-- ===== src/Tests/Screens.antt =====
-- Runs of the client's screen: its dialogs, and what the server does for them.
use acos_chat.Base.{
  ℕ, ◌+◌, ◌-◌, ◌^◌, ◌<◌, ◌≡◌, refl, true, false, List, [], ◌∷◌, ◌++◌, map, none, some, length,
  codes, if◌then◌else◌, ◌==◌, arith,
}
use acos_chat.TsMap.Laws.{view}
use acos_chat.ConnMgr.Inv.{owner}
use acos_chat.ConnMgr.Sessions.{keys_of}
use acos_chat.Message.{Message, done, c_str, pack_message}
use acos_chat.Message.RoundTrip.{received}
use acos_chat.Server.{Effect, sends_status, status_unauthorized, status_access_error, root_uid}
use acos_chat.Server.Listener.{Connection, new_connection}
use acos_chat.Server.Process.{Shared, logged_in, printed, meta}
use acos_chat.Server.Process.Kick.{kicks}
use acos_chat.Client
use acos_chat.Client.{Controller, asks, exits, internal}
use acos_chat.Client.Misc.{str_strip, squeeze, drop_spaces}
use acos_chat.Client.Control.{connect_to_server, split_port, port_of}
use acos_chat.Client.Received.{IsText}
use acos_chat.Client.Received.Requests.{handled}
use acos_chat.Client.Screen.{
  Key, other, enter, ppage, close_app, Form, Request, types, clr_field, address, kick_uid, Input,
  gui_init_windows, gui_thread,
}
use acos_chat.Client.Screen.Lines.{OnPad, gui_thread-OnPad}
use acos_chat.Client.Screen.Dialogs.{Env, dialog_key, dialogs, Session}
use acos_chat.Client.Screen.Dialogs.Typed.{entered, client_logs_in}
use acos_chat.Client.Screen.Dialogs.Kick.{dialogs-kicks}
use acos_chat.Client.Screen.Dialogs.Ends.{messages, ends, login_dialogs_end}
use acos_chat.Client.Polls.{client_listener_thread, broken, event, lost}
use acos_chat.Client.Polls.Thread.{reading, client_listener_thread_lem}
use acos_chat.Client.Listener.Stream.{all_events}
use acos_chat.Server.Input.Stream.{sent}
use acos_chat.Tests.Connections.{
  one_byte, unread, in_order, at_most, arrives, answers, meaning, answers-Means,
}
use acos_chat.Tests.Handlers.{api, shared}
use acos_chat.Tests.Managers.{joined, joined-Inv}

-- A form that keeps the characters.
abbrev drive : List ℕ → Request → List ℕ
drive f (types (other ch)) = f ++ ch ∷ []
drive f clr_field = []
drive f request = f

abbrev form : Form (List ℕ)
form = record { form_driver = drive; field_buffer = λ f. f; new_form = [] }

abbrev env : Env
env = record {
  socket = some 5;
  gethostbyname = λ name. some 9;
  connect = λ sockid address port. true;
  atoi = λ s. length s;
}

abbrev client : Controller
client = record { sockid = none; logged_in = false }

abbrev host : List Key
host = other 104 ∷ []

abbrev user : List Key
user = other 117 ∷ []

abbrev passwd : List Key
passwd = other 112 ∷ other 119 ∷ []

user_typed : entered form user ≡ codes "u"
unfolding dialog_key str_strip squeeze drop_spaces
user_typed = refl

user-IsText : IsText (entered form user)
unfolding dialog_key str_strip squeeze drop_spaces
user-IsText = (omega arith, tt)

passwd-IsText : IsText (entered form passwd)
unfolding dialog_key str_strip squeeze drop_spaces
passwd-IsText = (omega arith, (omega arith, tt))

short : length (entered form user) + length (entered form passwd) < 2 ^ 31 - 8
unfolding dialog_key str_strip squeeze drop_spaces
short = omega arith

on :
    connect_to_server env.socket env.gethostbyname env.connect
      (split_port (entered form host)).0
      (port_of env.atoi (split_port (entered form host)).1)
    ≡ some 5
unfolding connect_to_server
on = refl

client_logs_in_example :
    (m : Message) × (dialogs form env 3 3
        (some address)
        (host ++ enter ∷ (user ++ enter ∷ (passwd ++ enter ∷ [])))
        client
      ≡ some (
        record client { sockid = some 5 },
        asks (codes "Enter username:") false
            ∷ asks (codes "Enter password:") true
            ∷ Client.sends m
            ∷ [],
        [],
      ))
    × (handled api 3 3 5 (pack_message m) shared
        ≡ done (
            some (
              logged_in api 3 5
                (entered form user)
                (record shared {
                  db = (api.login_or_register 0 (entered form user) (entered form passwd)).0;
                })
                (api.login_or_register 0 (entered form user) (entered form passwd)).1)))
client_logs_in_example =
    client_logs_in form api 3 3 5 shared env client [] 5 host user passwd ((refl, refl), tt)
      ((refl, refl), tt) ((refl, refl), ((refl, refl), tt)) on user-IsText passwd-IsText short
      (omega arith)

-- F10 in the second dialog, and keys for which no dialog is left.
abbrev gives_up : List Key
gives_up = host ++ enter ∷ close_app ∷ other 65 ∷ enter ∷ []

login_dialogs_end_example :
    (r : Session) × (dialogs form env 3 3 (some address) gives_up client ≡ some r)
    × (messages r.1 + ends r.1 ≡ 1)
login_dialogs_end_example = login_dialogs_end form env 3 gives_up client (omega arith)

abbrev who : List Key
who = other 55 ∷ []

one_user : env.atoi (entered form who) ≡ 1
unfolding dialog_key str_strip squeeze drop_spaces
one_user = refl

why_short : length (entered form user) < 2 ^ 31 - 12
unfolding dialog_key str_strip squeeze drop_spaces
why_short = omega arith

dialogs-kicks_example :
    (m : Message) × (after : Shared ℕ × List Effect) × (dialogs form env 3 2
        (some kick_uid)
        (who ++ enter ∷ (user ++ enter ∷ []))
        client
      ≡ some (client, asks (codes "Enter kicking reason:") false ∷ Client.sends m ∷ [], []))
    × (handled api 3 3 5 (pack_message m) shared ≡ done (some after))
    × (after.1 ≡ (
        if owner joined 5 == root_uid
        then (if length (keys_of 1 (view joined.sid_to_uid)) == 0
            then sends_status 5 status_unauthorized ∷ []
            else kicks (received (c_str (entered form user))) (keys_of 1 (view joined.sid_to_uid))
              ++ meta 3 (
                  codes "User '"
                  ++ printed (api.get_login_by_uid 0 1)
                  ++ codes "' was kicked, reason: "
                  ++ entered form user)
                ∷ [])
        else sends_status 5 status_access_error ∷ []))
dialogs-kicks_example =
    dialogs-kicks form api 3 3 5 shared env client [] who user 1 ((refl, refl), tt)
      ((refl, refl), tt) one_user (omega arith) (omega arith) user-IsText why_short (omega arith)
      joined-Inv

-- PageUp at the start.
abbrev page_up : Input
page_up = record { now = 3; rows = 20; key = some ppage; event = none }

gui_thread-OnPad_example :
    OnPad (gui_thread form (λ n. []) (page_up ∷ page_up ∷ []) (gui_init_windows form 20)).0
gui_thread-OnPad_example = gui_thread-OnPad form (λ n. []) 20 page_up (page_up ∷ []) refl

client_listener_thread_lem_example :
    (n : ℕ) × (s' : List ℕ) × (c : Connection) × (client_listener_thread one_byte 3
        (reading 3 5 n ++ record { now = 4; sockid = some 5; polled = broken; going = true } ∷ [])
        (sent answers [])
        (new_connection 5)
      ≡ some (
        s',
        c,
        map event (all_events meaning answers)
            ++ lost 4 (codes "Connection lost, please restart client"),
        false,
      ))
    × (unread s' ≡ [])
client_listener_thread_lem_example =
    client_listener_thread_lem one_byte unread in_order at_most arrives 3 5 meaning answers []
      (sent answers []) 3 4 true answers-Means refl
