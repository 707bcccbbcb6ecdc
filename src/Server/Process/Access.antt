-- ===== src/Server/Process/Access.antt =====
-- Who may speak: `case MESSAGE_CLIENT_REGULAR`.
use acos_chat.Base.{ℕ, ◌≡◌, refl, ap, List, [], ◌∷◌, if◌then◌else◌, ◌==◌}
use acos_chat.TsMap.Spec.{get}
use acos_chat.ConnMgr.Inv.{Inv, owner}
use acos_chat.ConnMgr.Sessions.{get_uid-owner}
use acos_chat.ConnMgr.Queries.{get_uid-Inv}
use acos_chat.Message.{PascalString}
use acos_chat.Server.{sends_status, broadcasts, message_regular, status_unauthorized}
use acos_chat.Server.Database.{Database}
use acos_chat.Server.Process.{Shared, on_regular, said, p_str_to_c_str}

module _ {D : Type 0} (api : Database D) where
  -- In a consistent manager a text of a connection that belongs to nobody is refused with
  -- `MSG_STATUS_UNAUTHORIZED`; any other is broadcast once, with the uid that the connection
  -- belongs to and that user's login. The manager stays consistent, and the owners of all
  -- connections and the data base stay as they are.
  pub on_regular_lem :
      (now sockid : ℕ) (text : PascalString) (rest : List PascalString) (s : Shared D)
      → Inv s.conn_mgr
      → ((on_regular api now sockid (text ∷ rest) s).1 ≡ (
          if owner s.conn_mgr sockid == 0
          then sends_status sockid status_unauthorized ∷ []
          else broadcasts (record {
            tstamp = now;
            kind = message_regular;
            login = api.get_login_by_uid s.db (owner s.conn_mgr sockid);
            text = p_str_to_c_str text;
            uid = owner s.conn_mgr sockid;
          })
            ∷ []))
        × Inv (on_regular api now sockid (text ∷ rest) s).0.conn_mgr
        × ((q : ℕ)
            → owner (on_regular api now sockid (text ∷ rest) s).0.conn_mgr q ≡ owner s.conn_mgr q)
        × ((on_regular api now sockid (text ∷ rest) s).0.db ≡ s.db)
  unfolding on_regular said
  on_regular_lem now sockid text rest s i = (
    rw ((get_uid-owner s.conn_mgr sockid i).0) refl,
    get_uid-Inv s.conn_mgr i sockid,
    λ q. ap (get q) (get_uid-owner s.conn_mgr sockid i).1,
    refl,
  )
