-- ===== src/Server/Process/Kick.antt =====
-- Who may close the connections of another user: `case MESSAGE_CLIENT_KICK`.
use acos_chat.Base.{
  ℕ, ◌≡◌, ◌≢◌, ◌<◌, ◌^◌, refl, sym, ap, ◌∙◌, List, [], ◌∷◌, ◌++◌, append_assoc, append-nil, some,
  length, if◌then◌else◌, ◌==◌, codes, arith, Bool-cases, inl, inr,
}
use acos_chat.TsMap.Laws.{view}
use acos_chat.ConnMgr.{ConnMgr, get_uid, number_of_sessions, forall_uid}
use acos_chat.ConnMgr.Inv.{Inv, owner}
use acos_chat.ConnMgr.Sessions.{
  keys_of, fold_keys, get_uid-owner, number_of_sessions-length, forall_uid-fold_keys,
}
use acos_chat.ConnMgr.Queries.{get_uid-Inv, number_of_sessions-Inv}
use acos_chat.Message.{PascalString, p_str}
use acos_chat.Server.{
  Effect, sends_status, sends, closes, message_kick, status_unauthorized, status_access_error,
  root_uid,
}
use acos_chat.Server.Database.{Database}
use acos_chat.Server.Process.{
  Shared, on_kick, kick, kick_tokens, kick_target, kick_callback, int_token, int_key, printed, meta,
  p_str_to_c_str,
}

-- What each of these connections is told, and that it is to be closed.
abbrev pub kicks : PascalString → List ℕ → List Effect
kicks reason [] = []
kicks reason (k ∷ ks) =
    sends k (record { msg_type = message_kick; tokens = p_str reason ∷ [] })
    ∷ closes k
    ∷ kicks reason ks

fold-kicks :
    (reason : PascalString) (ks : List ℕ) (effects : List Effect)
    → fold_keys (λ k. kick_callback reason k 0) ks effects ≡ effects ++ kicks reason ks
unfolding kick_callback
fold-kicks reason [] effects = sym (append-nil effects)
fold-kicks reason (k ∷ ks) effects =
    fold-kicks reason ks (kick_callback reason k 0 effects)
    ∙ append_assoc effects _ (kicks reason ks)

-- `conn_mgr_forall_uid` with `kick_callback`.
forall_uid-kicks :
    (c : ConnMgr) (uid : ℕ) (reason : PascalString)
    → Inv c
    → uid ≢ 0
    → (forall_uid c uid (kick_callback reason) []).1
      ≡ kicks reason (keys_of uid (view c.sid_to_uid))
unfolding kick_callback
forall_uid-kicks c uid reason i nz =
    forall_uid-fold_keys c uid (λ k. kick_callback reason k 0) [] i nz
    ∙ fold-kicks reason (keys_of uid (view c.sid_to_uid)) []

small_key : (w : ℕ) → w < 2 ^ 31 → int_key w ≡ w
unfolding int_key
small_key w h = ground arith

module _ {D : Type 0} (api : Database D) where
  -- `kick` in a consistent manager.
  kick-kicks :
      (now sockid kuid : ℕ) (reason : PascalString) (s : Shared D)
      → Inv s.conn_mgr
      → kuid ≢ 0
      → kuid < 2 ^ 31
      → (kick api now sockid kuid reason s).1 ≡ (
          if length (keys_of kuid (view s.conn_mgr.sid_to_uid)) == 0
          then sends_status sockid status_unauthorized ∷ []
          else kicks reason (keys_of kuid (view s.conn_mgr.sid_to_uid))
            ++ meta now (
                codes "User '"
                ++ printed (api.get_login_by_uid s.db kuid)
                ++ codes "' was kicked, reason: "
                ++ p_str_to_c_str reason)
              ∷ [])
  unfolding kick
  kick-kicks now sockid kuid reason s i nz h =
      let count = number_of_sessions-length s.conn_mgr kuid i nz in
      rw
        (
          small_key kuid h,
          count.0,
          forall_uid-kicks (number_of_sessions s.conn_mgr kuid).0 kuid reason
              (number_of_sessions-Inv s.conn_mgr i kuid) nz,
          count.1,
        )
        (ground arith)

  tokens_read :
      (now sockid kuid : ℕ) (target reason : PascalString) (rest : List PascalString) (s : Shared D)
      → int_token target ≡ some kuid
      → kick_tokens api now sockid (target ∷ reason ∷ rest) s ≡ kick api now sockid kuid reason s
  unfolding kick_tokens kick_target
  tokens_read now sockid kuid target reason rest s read =
      ap (λ t. kick_target api now sockid t reason s) read

  -- A kick of the user `kuid`, not 0 and below 2 ^ 31, in a consistent manager. A connection that
  -- does not belong to root only gets `MSG_STATUS_ACCESS_ERROR`. Root gets
  -- `MSG_STATUS_UNAUTHORIZED` if the user has no connection. Otherwise every connection of the
  -- user, and no other, gets the reason and is then to be closed, in ascending order, and the kick
  -- is announced to everybody.
  pub on_kick_lem :
      (now sockid kuid : ℕ) (target reason : PascalString) (rest : List PascalString) (s : Shared D)
      → Inv s.conn_mgr
      → int_token target ≡ some kuid
      → kuid ≢ 0
      → kuid < 2 ^ 31
      → (on_kick api now sockid (target ∷ reason ∷ rest) s).1 ≡ (
          if owner s.conn_mgr sockid == root_uid
          then (if length (keys_of kuid (view s.conn_mgr.sid_to_uid)) == 0
              then sends_status sockid status_unauthorized ∷ []
              else kicks reason (keys_of kuid (view s.conn_mgr.sid_to_uid))
                ++ meta now (
                    codes "User '"
                    ++ printed (api.get_login_by_uid s.db kuid)
                    ++ codes "' was kicked, reason: "
                    ++ p_str_to_c_str reason)
                  ∷ [])
          else sends_status sockid status_access_error ∷ [])
  unfolding on_kick
  on_kick_lem now sockid kuid target reason rest s i read nz h =
      let asked = get_uid s.conn_mgr sockid in
      let effects =
        kick-kicks now sockid kuid reason (record s { conn_mgr = asked.0 })
          (get_uid-Inv s.conn_mgr i sockid) nz h in
      elim (Bool-cases (owner s.conn_mgr sockid == root_uid)) [
        | inl root ↦
            rw
              (
                (get_uid-owner s.conn_mgr sockid i).0,
                root,
                tokens_read now sockid kuid target reason rest (record s { conn_mgr = asked.0 })
                    read,
              )
              (effects ∙ rw ((get_uid-owner s.conn_mgr sockid i).1) refl)
        | inr other ↦ rw ((get_uid-owner s.conn_mgr sockid i).0, other) refl
      ]
