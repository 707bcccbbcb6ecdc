-- ===== src/Server/Close.antt =====
-- `close_connection` and `accept_connection` of lab_2/chat/src/server/listener.c, and the handler of
-- lab_2/chat/src/server/events/close_connection_event.c. The value of a client is the address of its
-- `connection_t`, never 0. The result is `none` where `connection_deleter` reads through NULL.
pub mod Effects
use acos_chat.Base.{ℕ, List, [], ◌∷◌, ◌++◌, Option, none, some, if◌then◌else◌, ◌==◌, codes}
use acos_chat.TsMap.Ops.{TsMap}
use acos_chat.TsMap.Ops
use acos_chat.ConnMgr.{ConnMgr, add_sid, del_sid, get_uid, number_of_sessions}
use acos_chat.Server.{Effect}
use acos_chat.Server.Database.{Database}
use acos_chat.Server.Process.{Shared, meta, printed}

-- `listener_data_t`: its own clients, and what it reaches through `controller` and `conn_mgr`.
pub record ListenerData (D : Type 0) : Type 0 where
  pub clients : TsMap
  pub shared : Shared D

-- The manager after the calls of `close_connection`.
abbrev pub closed_mgr : ConnMgr → ℕ → ConnMgr
closed_mgr c sockid =
    del_sid (number_of_sessions (get_uid c sockid).0 (get_uid c sockid).1).0 sockid

module _ {D : Type 0} (api : Database D) where
  unfoldable pub logged_out : ℕ → ℕ → D → Effect
  logged_out now uid db =
      meta now (codes "User '" ++ printed (api.get_login_by_uid db uid) ++ codes "' has logged out")

  unfoldable pub close_connection : ℕ → ℕ → ListenerData D → Option (ListenerData D × List Effect)
  close_connection now sockid l =
      let asked = get_uid l.shared.conn_mgr sockid in
      let sessions = (number_of_sessions asked.0 asked.1).1 in
      let erased = Ops.erase_key l.clients sockid in
      if erased.1 == 0
      then none
      else some (
        record {
          clients = erased.0;
          shared = record { conn_mgr = closed_mgr l.shared.conn_mgr sockid; db = l.shared.db };
        },
        if sessions == 1 then logged_out now asked.1 l.shared.db ∷ [] else [],
      )

-- `accept_connection` where `accept` gives a socket above 0 and the new connection is at `conn`.
unfoldable pub accept_connection : {D : Type 0} → ℕ → ℕ → ListenerData D → ListenerData D
accept_connection sockid conn l = record {
  clients = (Ops.insert l.clients sockid conn).0;
  shared = record { conn_mgr = add_sid l.shared.conn_mgr sockid; db = l.shared.db };
}
