-- ===== src/Tests/Handlers.antt =====
-- Runs of the server's handlers, on a data base of one user.
use acos_chat.Base.{
  ℕ, ◌≡◌, refl, [], ◌∷◌, ◌++◌, ◌&&◌, some, length, take, if◌then◌else◌, ◌==◌, codes, arith,
}
use acos_chat.Base.Int.{pos}
use acos_chat.TsMap.Laws.{view}
use acos_chat.ConnMgr.{ConnMgr, add_uid, connect_sid_uid}
use acos_chat.ConnMgr.Inv.{Inv, known, owner}
use acos_chat.ConnMgr.Connect.{connect_sid_uid-Inv}
use acos_chat.ConnMgr.Users.{add_uid-Inv}
use acos_chat.ConnMgr.Queries.{add_uid_registers}
use acos_chat.ConnMgr.Sessions.{keys_of}
use acos_chat.Message.{PascalString}
use acos_chat.Server.{
  sends_status, broadcasts, closes, status_ok, status_unauthorized, status_access_error,
  message_regular, root_uid,
}
use acos_chat.Server.Database.{Row, Database}
use acos_chat.Server.Process.{
  Shared, Job, p_str_to_c_str, int_token, printed, meta, on_login, on_regular, on_kick,
  process_message,
}
use acos_chat.Server.Process.Login.{on_login_lem}
use acos_chat.Server.Process.Access.{on_regular_lem}
use acos_chat.Server.Process.Kick.{kicks, on_kick_lem}
use acos_chat.Server.Process.Keeps.{process_message-Inv}
use acos_chat.Tests.Managers.{joined, joined-Inv}

abbrev the_row : Row
the_row = record { uid = 7; text = 104 ∷ []; tstamp = 12 }

-- Everybody is the user 7, whose login is "u", and who has written one message.
abbrev pub api : Database ℕ
api = record {
  login_or_register = λ db login passwd. (db, pos 7);
  get_login_by_uid = λ db uid. some (117 ∷ []);
  last_messages = λ db limit. take limit (the_row ∷ []);
}

abbrev pub shared : Shared ℕ
shared = record { conn_mgr = joined; db = 0 }

abbrev name : PascalString
name = record { size = 1; bytes = 117 ∷ [] }

on_login_lem_example :
    Inv (on_login api 3 5 (name ∷ name ∷ []) shared).0.conn_mgr
    × ((q : ℕ)
        → (known (on_login api 3 5 (name ∷ name ∷ []) shared).0.conn_mgr q ≡ known joined q)
          × (owner (on_login api 3 5 (name ∷ name ∷ []) shared).0.conn_mgr q
              ≡ (if known joined 5 && (5 == q) then 7 else owner joined q)))
    × ((on_login api 3 5 (name ∷ name ∷ []) shared).1 ≡ (
        sends_status 5 status_ok
        ∷ (if length (keys_of 7 (view joined.sid_to_uid)) == 0
            then meta 3 (codes "User '" ++ p_str_to_c_str name ++ codes "' has logged in") ∷ []
            else [])))
on_login_lem_example = on_login_lem api 3 5 name name [] shared 7 joined-Inv (omega arith) refl

on_regular_lem_example :
    ((on_regular api 3 4 (name ∷ []) shared).1 ≡ (
      if owner joined 4 == 0
      then sends_status 4 status_unauthorized ∷ []
      else broadcasts (record {
        tstamp = 3;
        kind = message_regular;
        login = some (117 ∷ []);
        text = p_str_to_c_str name;
        uid = owner joined 4;
      })
        ∷ []))
    × Inv (on_regular api 3 4 (name ∷ []) shared).0.conn_mgr
    × ((q : ℕ) → owner (on_regular api 3 4 (name ∷ []) shared).0.conn_mgr q ≡ owner joined q)
    × ((on_regular api 3 4 (name ∷ []) shared).0.db ≡ 0)
on_regular_lem_example = on_regular_lem api 3 4 name [] shared joined-Inv

-- The uid 7 in the four bytes of a token.
abbrev target : PascalString
target = record { size = 4; bytes = 0 ∷ 0 ∷ 0 ∷ 7 ∷ [] }

target_read : int_token target ≡ some 7
unfolding int_token
target_read = refl

-- Root's connection is 5.
abbrev with_root : ConnMgr
with_root = connect_sid_uid (add_uid joined 1) 5 1

with_root-Inv : Inv with_root
with_root-Inv =
    connect_sid_uid-Inv (add_uid joined 1) 5 1 (add_uid-Inv joined 1 joined-Inv (omega arith))
      (add_uid_registers joined joined-Inv 1)

abbrev ruled : Shared ℕ
ruled = record { conn_mgr = with_root; db = 0 }

on_kick_lem_example : (on_kick api 3 5 (target ∷ name ∷ []) ruled).1 ≡ (
    if owner with_root 5 == root_uid
    then (if length (keys_of 7 (view with_root.sid_to_uid)) == 0
        then sends_status 5 status_unauthorized ∷ []
        else kicks name (keys_of 7 (view with_root.sid_to_uid))
          ++ meta 3 (
              codes "User '"
              ++ printed (some (117 ∷ []))
              ++ codes "' was kicked, reason: "
              ++ p_str_to_c_str name)
            ∷ [])
    else sends_status 5 status_access_error ∷ [])
on_kick_lem_example =
    on_kick_lem api 3 5 7 target name [] ruled with_root-Inv target_read (omega arith) (omega arith)

-- The logout of the connection 4.
abbrev job : Job
job = record { sockid = 4; msg = record { msg_type = 111; tokens = [] } }

job_run : process_message api 3 job shared ≡ some (shared, closes 4 ∷ [])
unfolding process_message
job_run = refl

process_message-Inv_example : Inv joined
process_message-Inv_example =
    process_message-Inv api 3 job shared (shared, closes 4 ∷ []) joined-Inv
      (λ d login passwd e. cc e) job_run
