-- ===== src/Server/Process.antt =====
-- lab_2/chat/src/server/events/process_message_job.c: what a worker does with a client's message.
-- The tokens are those that `unpack_message_2` made, all `DATA_P_STR`. The result is `none` where
-- the handler reads through NULL.
pub mod Login
pub mod Access
pub mod Kick
pub mod Keeps
pub mod History
pub mod Users
use acos_chat.Base.{
  ℕ, zero, suc, ◌+◌, ◌-◌, ◌^◌, Bool, true, false, not, ◌&&◌, List, [], ◌∷◌, ◌++◌, Option, none,
  some, take, ltb, ◌==◌, if◌then◌else◌, ◌>>=◌, codes, c_string,
}
use acos_chat.Base.Int.{ℤ, pos, negsuc, pos_part, signed32}
use acos_chat.TsMap.Ops
use acos_chat.ConnMgr.{ConnMgr, add_uid, connect_sid_uid, get_uid, number_of_sessions, forall_uid}
use acos_chat.Message.{PascalString, Message, Unpacked, Token, c_str, p_str, int32, int64, read_int}
use acos_chat.Server.{
  Effect, Broadcast, sends_status, sends, broadcasts, closes, null_uid, root_uid,
  max_history_length, status_ok, status_invalid_type, status_unauthorized, status_access_error,
  status_invalid_msg, message_regular, message_meta, message_history, message_list, message_kick,
  message_login, message_logout,
}
use acos_chat.Server.Misc.{to_range}
use acos_chat.Server.Database.{Row, Database}

-- `p_str_to_c_str`.
unfoldable pub p_str_to_c_str : PascalString → List ℕ
p_str_to_c_str s = c_string (take s.size s.bytes)

-- An `int` that becomes the `uint64_t` key of a map keeps its sign.
unfoldable pub int_key : ℕ → ℕ
int_key w = if ltb w (2 ^ 31) then w else w + (2 ^ 64 - 2 ^ 32)

-- What `%s` prints.
abbrev pub printed : Option (List ℕ) → List ℕ
printed none = codes "(null)"
printed (some s) = s

-- A `MESSAGE_SERVER_META` of the server's own.
unfoldable pub meta : ℕ → List ℕ → Effect
meta now text =
    broadcasts
      (record { tstamp = now; kind = message_meta; login = none; text = text; uid = null_uid })

-- The controller's connection manager and data base, which the workers share.
pub record Shared (D : Type 0) : Type 0 where
  pub conn_mgr : ConnMgr
  pub db : D

-- `process_message_job_t`: the connection's socket, the message.
pub record Job : Type 0 where
  pub sockid : ℕ
  pub msg : Unpacked

-- `user_list_callback`; the session map is the one at the address `val`.
unfoldable pub user_list_callback : (ℕ → Ops.TsMap) → ℕ → ℕ → List ℕ → List ℕ
user_list_callback maps key val uids =
    if not (Ops.size (maps val) == 0) && not (key == null_uid) then uids ++ key ∷ [] else uids

-- `kick_callback`, on the effects so far.
unfoldable pub kick_callback : PascalString → ℕ → ℕ → List Effect → List Effect
kick_callback reason key value effects =
    effects
    ++ sends key (record { msg_type = message_kick; tokens = p_str reason ∷ [] }) ∷ closes key ∷ []

-- The `int` in a token of four bytes.
unfoldable pub int_token : PascalString → Option ℕ
int_token s = if s.size == 4 then read_int s.bytes else none

module _ {D : Type 0} (api : Database D) where
  -- `browse_history_callback` on one row. A NULL login reaches `strlen`.
  unfoldable pub browse_history_callback : D → ℕ → Row → Option Effect
  browse_history_callback db sid row = elim (api.get_login_by_uid db row.uid) [
    | none ↦ none
    | some login ↦ some (
        sends sid (record {
          msg_type = message_history;
          tokens = int64 row.tstamp ∷ c_str login ∷ c_str row.text ∷ [];
        }))
  ]

  -- The loop of `browse_history`, one call of the callback for each row.
  unfoldable pub browse_rows : D → ℕ → List Row → Option (List Effect)
  browse_rows db sid [] = some []
  browse_rows db sid (row ∷ rows) = do
    effect ← browse_history_callback db sid row
    effects ← browse_rows db sid rows
    some (effect ∷ effects)

  -- The loop over the uids of `MESSAGE_CLIENT_LIST`.
  unfoldable pub list_tokens : D → List ℕ → Option (List Token)
  list_tokens db [] = some []
  list_tokens db (uid ∷ uids) = do
    login ← api.get_login_by_uid db uid
    tokens ← list_tokens db uids
    some (int32 uid ∷ c_str login ∷ tokens)

  -- `case MESSAGE_CLIENT_LOGIN` after `login_or_register`.
  unfoldable pub logged_in : ℕ → ℕ → List ℕ → Shared D → ℤ → Shared D × List Effect
  logged_in now sockid login s (negsuc n) = (s, sends_status sockid (suc n) ∷ [])
  logged_in now sockid login s (pos uid) =
      let asked = number_of_sessions s.conn_mgr uid in
      (
        record s { conn_mgr = connect_sid_uid (add_uid asked.0 uid) sockid uid },
        sends_status sockid status_ok
            ∷ (if asked.1 == 0
                then meta now (codes "User '" ++ login ++ codes "' has logged in") ∷ []
                else []),
      )

  unfoldable pub on_login : ℕ → ℕ → List PascalString → Shared D → Shared D × List Effect
  on_login now sockid (name ∷ secret ∷ rest) s =
      let answer = api.login_or_register s.db (p_str_to_c_str name) (p_str_to_c_str secret) in
      logged_in now sockid (p_str_to_c_str name) (record s { db = answer.0 }) answer.1
  on_login now sockid tokens s = (s, sends_status sockid status_invalid_msg ∷ [])

  -- `case MESSAGE_CLIENT_REGULAR` for an authorized user.
  unfoldable pub said : ℕ → ℕ → ℕ → List PascalString → D → List Effect
  said now sockid uid [] db = sends_status sockid status_invalid_msg ∷ []
  said now sockid uid (text ∷ rest) db =
      broadcasts (record {
        tstamp = now;
        kind = message_regular;
        login = api.get_login_by_uid db uid;
        text = p_str_to_c_str text;
        uid = uid;
      })
      ∷ []

  unfoldable pub on_regular : ℕ → ℕ → List PascalString → Shared D → Shared D × List Effect
  on_regular now sockid tokens s =
      let asked = get_uid s.conn_mgr sockid in
      (
        record s { conn_mgr = asked.0 },
        if asked.1 == null_uid
            then sends_status sockid status_unauthorized ∷ []
            else said now sockid asked.1 tokens s.db,
      )

  unfoldable pub on_history : ℕ → List PascalString → D → Option (List Effect)
  on_history sockid [] db = some (sends_status sockid status_invalid_msg ∷ [])
  on_history sockid (first ∷ rest) db = elim (int_token first) [
    | none ↦ some (sends_status sockid status_invalid_msg ∷ [])
    | some cnt ↦
        browse_rows db sockid (
          api.last_messages db
            (pos_part (to_range (pos 0) (signed32 cnt) (pos max_history_length))))
  ]

  unfoldable pub on_list : ℕ → Shared D → Option (List Effect)
  on_list sockid s = do
    tokens ←
        list_tokens s.db
          (Ops.forall_entries s.conn_mgr.uid_to_sid (user_list_callback s.conn_mgr.maps) [])
    some (sends sockid (record { msg_type = message_list; tokens = tokens }) ∷ [])

  -- `case MESSAGE_CLIENT_KICK` from the call of `conn_mgr_get_number_of_sessions` on.
  unfoldable pub kick : ℕ → ℕ → ℕ → PascalString → Shared D → Shared D × List Effect
  kick now sockid kuid reason s =
      let asked = number_of_sessions s.conn_mgr (int_key kuid) in
      if asked.1 == 0
      then (record s { conn_mgr = asked.0 }, sends_status sockid status_unauthorized ∷ [])
      else let kicked = forall_uid asked.0 (int_key kuid) (kick_callback reason) [] in
        (
          record s { conn_mgr = kicked.0 },
          kicked.1
              ++ meta now (
                  codes "User '"
                  ++ printed (api.get_login_by_uid s.db kuid)
                  ++ codes "' was kicked, reason: "
                  ++ p_str_to_c_str reason)
                ∷ [],
        )

  -- The uid's token may have the wrong length.
  unfoldable pub kick_target : ℕ → ℕ → Option ℕ → PascalString → Shared D → Shared D × List Effect
  kick_target now sockid none reason s = (s, sends_status sockid status_invalid_msg ∷ [])
  kick_target now sockid (some kuid) reason s = kick now sockid kuid reason s

  unfoldable pub kick_tokens : ℕ → ℕ → List PascalString → Shared D → Shared D × List Effect
  kick_tokens now sockid (target ∷ reason ∷ rest) s =
      kick_target now sockid (int_token target) reason s
  kick_tokens now sockid tokens s = (s, sends_status sockid status_invalid_msg ∷ [])

  unfoldable pub on_kick : ℕ → ℕ → List PascalString → Shared D → Shared D × List Effect
  on_kick now sockid tokens s =
      let asked = get_uid s.conn_mgr sockid in
      if asked.1 == root_uid
      then kick_tokens now sockid tokens (record s { conn_mgr = asked.0 })
      else (record s { conn_mgr = asked.0 }, sends_status sockid status_access_error ∷ [])

  -- `process_message_job_handler`, at the time `now`.
  unfoldable pub process_message : ℕ → Job → Shared D → Option (Shared D × List Effect)
  process_message now job s =
      if job.msg.msg_type == message_login
      then some (on_login now job.sockid job.msg.tokens s)
      else if job.msg.msg_type == message_logout
      then some (s, closes job.sockid ∷ [])
      else if job.msg.msg_type == message_regular
      then some (on_regular now job.sockid job.msg.tokens s)
      else if job.msg.msg_type == message_history
      then (on_history job.sockid job.msg.tokens s.db >>= λ effects. some (s, effects))
      else if job.msg.msg_type == message_list
      then (on_list job.sockid s >>= λ effects. some (s, effects))
      else if job.msg.msg_type == message_kick
      then some (on_kick now job.sockid job.msg.tokens s)
      else some (s, sends_status job.sockid status_invalid_type ∷ [])
