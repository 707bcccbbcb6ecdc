-- ===== src/Server/Close/Effects.antt =====
-- What the closing of a connection changes.
use acos_chat.Base.{
  ℕ, ◌≡◌, ◌≢◌, refl, sym, ap, ◌∙◌, inl, inr, true, false, List, [], ◌∷◌, some, none, length,
  if◌then◌else◌, ◌==◌, Bool-cases, subst, arith,
}
use acos_chat.TsMap.Spec.{get, erase}
use acos_chat.TsMap.Laws.{view}
use acos_chat.TsMap.Laws
use acos_chat.TsMap.Ops
use acos_chat.ConnMgr.{ConnMgr, get_uid, number_of_sessions}
use acos_chat.ConnMgr.Inv.{Inv, IsLive, known, owner, erase-IsLive}
use acos_chat.ConnMgr.Sessions.{keys_of, get_uid-owner, number_of_sessions-length}
use acos_chat.ConnMgr.Queries.{get_uid-Inv, number_of_sessions-Inv, del_sid-Inv, del_sid_effect}
use acos_chat.Server.{Effect}
use acos_chat.Server.Database.{Database}
use acos_chat.Server.Close.{ListenerData, close_connection, closed_mgr, logged_out}

module _ (c : ConnMgr) (sid : ℕ) (i : Inv c) where
  asked : ConnMgr
  asked = (number_of_sessions (get_uid c sid).0 (get_uid c sid).1).0

  asked-Inv : Inv asked
  unfolding asked
  asked-Inv = number_of_sessions-Inv (get_uid c sid).0 (get_uid-Inv c i sid) (get_uid c sid).1

  view-asked : view asked.sid_to_uid ≡ view c.sid_to_uid
  unfolding asked number_of_sessions
  view-asked = (get_uid-owner c sid i).1

  -- The number that `close_connection` compares with 1.
  nobody_sessions : owner c sid ≡ 0 → (number_of_sessions (get_uid c sid).0 (get_uid c sid).1).1 ≡ 0
  unfolding number_of_sessions get_uid
  nobody_sessions e =
      let j = get_uid-Inv c i sid in
      let uid : (get_uid c sid).1 ≡ 0 = (get_uid-owner c sid i).0 ∙ e in
      rw (uid, Laws.find_val_result c.uid_to_sid i.uids.valid 0, i.nobody) refl

  user_sessions :
      owner c sid ≢ 0
      → (number_of_sessions (get_uid c sid).0 (get_uid c sid).1).1
        ≡ length (keys_of (owner c sid) (view c.sid_to_uid))
  user_sessions e =
      let j = get_uid-Inv c i sid in
      rw ((get_uid-owner c sid i).0) (
        (number_of_sessions-length (get_uid c sid).0 (owner c sid) j e).0
        ∙ ap (λ es. length (keys_of (owner c sid) es)) (get_uid-owner c sid i).1)

  closed_effect :
      (s : ℕ)
      → (known (closed_mgr c sid) s ≡ (if sid == s then false else known c s))
        × (owner (closed_mgr c sid) s ≡ (if sid == s then 0 else owner c s))
  unfolding asked
  closed_effect s = rw (sym view-asked) (del_sid_effect asked asked-Inv sid s)

module _ {D : Type 0} (api : Database D) where
  -- In a consistent manager, and for a socket that is among the clients in use, `close_connection`
  -- returns: the manager stays consistent, the connection is unknown and belongs to nobody, all
  -- others stay as they were, the client is gone, and the logout is announced exactly if the
  -- connection was the only one of its user.
  pub close_connection_lem :
      (now sockid : ℕ) (l : ListenerData D)
      → Inv l.shared.conn_mgr
      → IsLive l.clients
      → get sockid (view l.clients) ≢ 0
      → (after : ListenerData D) × (effects : List Effect) × (close_connection api now sockid l
          ≡ some (after, effects))
        × Inv after.shared.conn_mgr
        × ((q : ℕ)
            → (known after.shared.conn_mgr q
                ≡ (if sockid == q then false else known l.shared.conn_mgr q))
              × (owner after.shared.conn_mgr q
                  ≡ (if sockid == q then 0 else owner l.shared.conn_mgr q)))
        × (view after.clients ≡ erase sockid (view l.clients))
        × (effects ≡ (
            if owner l.shared.conn_mgr sockid == 0
            then []
            else (if length
                    (keys_of (owner l.shared.conn_mgr sockid) (view l.shared.conn_mgr.sid_to_uid))
                  == 1
                then logged_out api now (owner l.shared.conn_mgr sockid) l.shared.db ∷ []
                else [])))
  unfolding close_connection asked
  close_connection_lem now sockid l i live client =
      let c = l.shared.conn_mgr in
      let found : ((Ops.erase_key l.clients sockid).1 == 0) ≡ false =
        ground (arith, Laws.erase_key_result l.clients live.valid sockid live.live) in
      let count = (number_of_sessions (get_uid c sockid).0 (get_uid c sockid).1).1 in
      (
        record {
          clients = (Ops.erase_key l.clients sockid).0;
          shared = record { conn_mgr = closed_mgr c sockid; db = l.shared.db };
        },
        if count == 1 then logged_out api now (get_uid c sockid).1 l.shared.db ∷ [] else [],
        rw found refl,
        del_sid-Inv (asked c sockid i) (asked-Inv c sockid i) sockid,
        closed_effect c sockid i,
        Laws.view-erase_key l.clients live.valid sockid live.live,
        elim (Bool-cases (owner c sockid == 0)) [
          | inl e ↦ rw (e, nobody_sessions c sockid i (ground arith)) refl
          | inr e ↦
              rw (e, user_sessions c sockid i (ground arith), (get_uid-owner c sockid i).0) refl
        ],
      )

  -- For a socket that is not among the clients in use, `close_connection` reads through NULL.
  pub close_connection_unknown :
      (now sockid : ℕ) (l : ListenerData D)
      → IsLive l.clients
      → get sockid (view l.clients) ≡ 0
      → close_connection api now sockid l ≡ none
  unfolding close_connection
  close_connection_unknown now sockid l live gone =
      let missing : ((Ops.erase_key l.clients sockid).1 == 0) ≡ true =
        ground (arith, Laws.erase_key_result l.clients live.valid sockid live.live) in
      rw missing refl

  -- The clients that are left are in use.
  pub close_connection-IsLive :
      (now sockid : ℕ) (l after : ListenerData D) (effects : List Effect)
      → close_connection api now sockid l ≡ some (after, effects)
      → IsLive l.clients
      → IsLive after.clients
  unfolding close_connection
  close_connection-IsLive now sockid l after effects e live =
      let clients : (Ops.erase_key l.clients sockid).0 ≡ after.clients = ground (arith, e) in
      subst IsLive clients (erase-IsLive l.clients live sockid)
