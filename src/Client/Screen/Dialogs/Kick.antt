-- ===== src/Client/Screen/Dialogs/Kick.antt =====
-- The two dialogs of a kick, and what the server does for them.
use acos_chat.Base.{
  ℕ, ◌-◌, ◌^◌, ◌<◌, ◌≡◌, ◌≢◌, refl, ap, ◌∙◌, List, [], ◌∷◌, ◌++◌, map, some, length, ◌==◌, false,
  if◌then◌else◌, codes, arith,
}
use acos_chat.TsMap.Laws.{view}
use acos_chat.ConnMgr.Inv.{Inv, owner}
use acos_chat.ConnMgr.Sessions.{keys_of}
use acos_chat.Message.{PascalString, Message, done, map_outcome, int32, c_str, pack_message}
use acos_chat.Message.RoundTrip.{
  received, unpack_message_1-pack_message, length-pack_tokens_cons, length-pack_tokens_nil,
}
use acos_chat.Server.{
  Effect, sends_status, status_unauthorized, status_access_error, root_uid, message_kick,
}
use acos_chat.Server.Database.{Database}
use acos_chat.Server.Process.{Shared, int_token, printed, meta, on_kick, process_message}
use acos_chat.Server.Process.Kick.{kicks, on_kick_lem}
use acos_chat.Client
use acos_chat.Client.{Controller, asks}
use acos_chat.Client.Received.{IsText, p_str_to_c_str-received}
use acos_chat.Client.Received.Answers.{read_int_code}
use acos_chat.Client.Received.Requests.{handled}
use acos_chat.Client.Screen.{Key, enter, Form, kick_uid, kick_reason}
use acos_chat.Client.Screen.Dialogs.{
  Env, dialogs, answered, get_kick_uid_callback, get_kick_reason_success,
}
use acos_chat.Client.Screen.Dialogs.Typed.{IsTyped, entered, dialogs_enter}

int_token-received : (n : ℕ) → n < 2 ^ 31 → int_token (received (int32 n)) ≡ some n
unfolding int_token
int_token-received n h = read_int_code n (omega arith)

module _ {F D : Type 0} (form : Form F) (api : Database D) (fuel now sockid : ℕ) (s : Shared D)
    (env : Env) (client : Controller) (rest : List Key) where
  kick_dialogs :
      (who why : List Key)
      → IsTyped who
      → IsTyped why
      → dialogs form env now 2 (some kick_uid) (who ++ enter ∷ (why ++ enter ∷ rest)) client
        ≡ some (
          client,
          asks (codes "Enter kicking reason:") false
              ∷ get_kick_reason_success env.atoi (entered form why) (entered form who),
          rest,
        )
  unfolding answered get_kick_uid_callback get_kick_reason_success dialogs
  kick_dialogs who why a b =
      dialogs_enter form env now 1 kick_uid who (why ++ enter ∷ rest) client a
      ∙ rw (dialogs_enter form env now 0 (kick_reason (entered form who)) why rest client b) refl

  -- For keys that end no dialog, a first text that `atoi` reads as a uid from 1 to 2 ^ 31 - 1, a
  -- second without zero bytes that is shorter than 2 ^ 31 - 12 bytes, fuel above 2 and a
  -- consistent manager: the two dialogs of a kick send one message, for which the server closes
  -- every connection of the user, and no other, after the typed reason, and announces the kick
  -- with it, if the client's connection belongs to root and the user has one; else it only answers
  -- a status, that of a refused access where the connection is not root's.
  pub dialogs-kicks :
      (who why : List Key) (kuid : ℕ)
      → IsTyped who
      → IsTyped why
      → env.atoi (entered form who) ≡ kuid
      → kuid ≢ 0
      → kuid < 2 ^ 31
      → IsText (entered form why)
      → length (entered form why) < 2 ^ 31 - 12
      → 2 < fuel
      → Inv s.conn_mgr
      → (m : Message) × (after : Shared D × List Effect) × (dialogs form env now 2
            (some kick_uid)
            (who ++ enter ∷ (why ++ enter ∷ rest))
            client
          ≡ some (client, asks (codes "Enter kicking reason:") false ∷ Client.sends m ∷ [], rest))
        × (handled api fuel now sockid (pack_message m) s ≡ done (some after))
        × (after.1 ≡ (
            if owner s.conn_mgr sockid == root_uid
            then (if length (keys_of kuid (view s.conn_mgr.sid_to_uid)) == 0
                then sends_status sockid status_unauthorized ∷ []
                else kicks
                    (received (c_str (entered form why)))
                    (keys_of kuid (view s.conn_mgr.sid_to_uid))
                  ++ meta now (
                      codes "User '"
                      ++ printed (api.get_login_by_uid s.db kuid)
                      ++ codes "' was kicked, reason: "
                      ++ entered form why)
                    ∷ [])
            else sends_status sockid status_access_error ∷ []))
  unfolding get_kick_reason_success process_message
  dialogs-kicks who why kuid a b uid nz small text short f i =
      let m : Message = record {
        msg_type = message_kick;
        tokens = int32 kuid ∷ c_str (entered form why) ∷ [];
      } in
      let tokens : List PascalString = map received m.tokens in
      (
        m,
        on_kick api now sockid tokens s,
        kick_dialogs who why a b ∙ rw uid refl,
        ap (map_outcome (λ msg. process_message api now (record { sockid = sockid; msg = msg }) s))
              (unpack_message_1-pack_message m fuel (omega arith, (omega arith, tt))
                (omega (
                  arith,
                  length-pack_tokens_cons (int32 kuid) (c_str (entered form why) ∷ [])
                      (omega arith),
                  length-pack_tokens_cons (c_str (entered form why)) [] (omega arith),
                  length-pack_tokens_nil,
                ))
                f)
            ∙ refl,
        on_kick_lem api now sockid kuid (received (int32 kuid))
              (received (c_str (entered form why))) [] s i (int_token-received kuid small) nz small
            ∙ rw (p_str_to_c_str-received (entered form why) text) refl,
      )
