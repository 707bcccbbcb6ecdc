-- ===== src/Server/Process/Keeps.antt =====
-- Whatever a client sends, the connection manager stays consistent.
use acos_chat.Base.{
  ℕ, ◌≡◌, ◌≢◌, refl, ap, ◌∙◌, subst, ◌>>=◌, List, [], ◌∷◌, Option, none, some, if_both, ◌==◌,
}
use acos_chat.Base.Int.{pos}
use acos_chat.ConnMgr.{ConnMgr, get_uid, number_of_sessions, forall_uid}
use acos_chat.ConnMgr.Inv.{Inv, known}
use acos_chat.ConnMgr.Queries.{get_uid-Inv, number_of_sessions-Inv, forall_uid-Inv}
use acos_chat.ConnMgr.Sessions.{get_uid-owner}
use acos_chat.TsMap.Spec.{has}
use acos_chat.Message.{PascalString}
use acos_chat.Server.{
  Effect, closes, sends_status, status_invalid_type, message_login, message_logout, message_regular,
  message_history, message_list, message_kick,
}
use acos_chat.Server.Database.{Database}
use acos_chat.Server.Process.{
  Shared, Job, process_message, on_login, on_regular, on_history, on_list, on_kick, kick,
  kick_tokens, kick_target, int_token, int_key, kick_callback, p_str_to_c_str,
}
use acos_chat.Server.Process.Login.{Keeps, logged_in-Keeps}

module _ {D : Type 0} where
  abbrev KeepsAll : ConnMgr → Shared D × List Effect → Type 0
  KeepsAll c r = Keeps c r.0.conn_mgr

  record KeepsIf (c : ConnMgr) (answer : Option (Shared D × List Effect)) : Type 0 where
    held : (r : Shared D × List Effect) → answer ≡ some r → KeepsAll c r

  kept : (c : ConnMgr) (r : Shared D × List Effect) → KeepsAll c r → KeepsIf c (some r)
  kept c r k = record { held = λ q e. let same : r ≡ q = cc e in subst (KeepsAll c) same k }

  maybe_keeps :
      (s : Shared D) (effects : Option (List Effect))
      → Inv s.conn_mgr
      → KeepsIf s.conn_mgr (effects >>= λ es. some (s, es))
  maybe_keeps s none i = record { held = λ q e. absurd (cc e) }
  maybe_keeps s (some es) i = kept s.conn_mgr (s, es) (i, λ q. refl)

  module _ (api : Database D) where
    on_login-Keeps :
        (now sockid : ℕ) (tokens : List PascalString) (s : Shared D)
        → Inv s.conn_mgr
        → ((d : D) (login passwd : List ℕ) → (api.login_or_register d login passwd).1 ≢ pos 0)
        → KeepsAll s.conn_mgr (on_login api now sockid tokens s)
    unfolding on_login
    on_login-Keeps now sockid [] s i nz = (i, λ q. refl)
    on_login-Keeps now sockid (t ∷ []) s i nz = (i, λ q. refl)
    on_login-Keeps now sockid (name ∷ secret ∷ rest) s i nz =
        logged_in-Keeps api now sockid _ _ _ i
          (nz s.db (p_str_to_c_str name) (p_str_to_c_str secret))

    kick-Keeps :
        (now sockid kuid : ℕ) (reason : PascalString) (s : Shared D)
        → Inv s.conn_mgr
        → KeepsAll s.conn_mgr (kick api now sockid kuid reason s)
    unfolding kick number_of_sessions forall_uid
    kick-Keeps now sockid kuid reason s i =
        let j = number_of_sessions-Inv s.conn_mgr i (int_key kuid) in
        if_both (KeepsAll s.conn_mgr) _ (j, λ q. refl)
          (
            forall_uid-Inv (number_of_sessions s.conn_mgr (int_key kuid)).0 j (int_key kuid)
                (kick_callback reason) [],
            λ q. refl,
          )

    kick_target-Keeps :
        (now sockid : ℕ) (target : Option ℕ) (reason : PascalString) (s : Shared D)
        → Inv s.conn_mgr
        → KeepsAll s.conn_mgr (kick_target api now sockid target reason s)
    unfolding kick_target
    kick_target-Keeps now sockid none reason s i = (i, λ q. refl)
    kick_target-Keeps now sockid (some kuid) reason s i = kick-Keeps now sockid kuid reason s i

    kick_tokens-Keeps :
        (now sockid : ℕ) (tokens : List PascalString) (s : Shared D)
        → Inv s.conn_mgr
        → KeepsAll s.conn_mgr (kick_tokens api now sockid tokens s)
    unfolding kick_tokens
    kick_tokens-Keeps now sockid [] s i = (i, λ q. refl)
    kick_tokens-Keeps now sockid (t ∷ []) s i = (i, λ q. refl)
    kick_tokens-Keeps now sockid (target ∷ reason ∷ rest) s i =
        kick_target-Keeps now sockid (int_token target) reason s i

    on_kick-Keeps :
        (now sockid : ℕ) (tokens : List PascalString) (s : Shared D)
        → Inv s.conn_mgr
        → KeepsAll s.conn_mgr (on_kick api now sockid tokens s)
    unfolding on_kick
    on_kick-Keeps now sockid tokens s i =
        let j = get_uid-Inv s.conn_mgr i sockid in
        let same : (q : ℕ) → known (get_uid s.conn_mgr sockid).0 q ≡ known s.conn_mgr q =
          λ q. ap (has q) (get_uid-owner s.conn_mgr sockid i).1 in
        let told =
          kick_tokens-Keeps now sockid tokens
            (record s { conn_mgr = (get_uid s.conn_mgr sockid).0 }) j in
        if_both (KeepsAll s.conn_mgr) _ (told.0, λ q. told.1 q ∙ same q) (j, same)

    handled-Keeps :
        (now : ℕ) (job : Job) (s : Shared D)
        → Inv s.conn_mgr
        → ((d : D) (login passwd : List ℕ) → (api.login_or_register d login passwd).1 ≢ pos 0)
        → KeepsIf s.conn_mgr (process_message api now job s)
    unfolding process_message on_regular
    handled-Keeps now job s i nz =
        if_both (KeepsIf s.conn_mgr) (job.msg.msg_type == message_login)
          (kept s.conn_mgr (on_login api now job.sockid job.msg.tokens s)
            (on_login-Keeps now job.sockid job.msg.tokens s i nz))
          (if_both (KeepsIf s.conn_mgr) (job.msg.msg_type == message_logout)
            (kept s.conn_mgr (s, closes job.sockid ∷ []) (i, λ q. refl))
            (if_both (KeepsIf s.conn_mgr) (job.msg.msg_type == message_regular)
              (kept s.conn_mgr (on_regular api now job.sockid job.msg.tokens s) (
                get_uid-Inv s.conn_mgr i job.sockid,
                λ q. ap (has q) (get_uid-owner s.conn_mgr job.sockid i).1,
              ))
              (if_both (KeepsIf s.conn_mgr) (job.msg.msg_type == message_history)
                (maybe_keeps s (on_history api job.sockid job.msg.tokens s.db) i)
                (if_both (KeepsIf s.conn_mgr) (job.msg.msg_type == message_list)
                  (maybe_keeps s (on_list api job.sockid s) i)
                  (if_both (KeepsIf s.conn_mgr) (job.msg.msg_type == message_kick)
                    (kept s.conn_mgr (on_kick api now job.sockid job.msg.tokens s)
                      (on_kick-Keeps now job.sockid job.msg.tokens s i))
                    (kept s.conn_mgr (s, sends_status job.sockid status_invalid_type ∷ [])
                      (i, λ q. refl)))))))

    -- If the data base never answers a login with the uid 0, the handler leaves a consistent
    -- connection manager consistent, for every message of every type, whenever it returns.
    pub process_message-Inv :
        (now : ℕ) (job : Job) (s : Shared D) (r : Shared D × List Effect)
        → Inv s.conn_mgr
        → ((d : D) (login passwd : List ℕ) → (api.login_or_register d login passwd).1 ≢ pos 0)
        → process_message api now job s ≡ some r
        → Inv r.0.conn_mgr
    process_message-Inv now job s r i nz e = ((handled-Keeps now job s i nz).held r e).0

    -- And it neither opens nor forgets a connection.
    pub process_message-known :
        (now : ℕ) (job : Job) (s : Shared D) (r : Shared D × List Effect)
        → Inv s.conn_mgr
        → ((d : D) (login passwd : List ℕ) → (api.login_or_register d login passwd).1 ≢ pos 0)
        → process_message api now job s ≡ some r
        → (q : ℕ) → known r.0.conn_mgr q ≡ known s.conn_mgr q
    process_message-known now job s r i nz e = ((handled-Keeps now job s i nz).held r e).1
