-- ===== src/Client/Received/Answers.antt =====
-- The lists, statuses and kicks of the server, as the client shows them.
use acos_chat.Base.{
  ℕ, ◌-◌, ◌^◌, ◌<◌, ◌≡◌, refl, sym, ap, ◌∙◌, List, [], ◌∷◌, map, Option, none, some, length, All,
  append-nil, arith,
}
use acos_chat.Message.{
  Token, c_str, p_str, int32, done, read_int, be32, u32, pack_message, pack_tokens, status_buffer,
}
use acos_chat.Message.Bytes.{take_all, read_int-be32}
use acos_chat.Message.RoundTrip.{IsToken, received, length-pack_tokens_cons, length-pack_tokens_nil}
use acos_chat.Message.Status.{status_buffer_lem}
use acos_chat.Server.{message_kick, message_status}
use acos_chat.Server.Database.{Database}
use acos_chat.Server.Process.{list_tokens}
use acos_chat.Client.{kicked, listed, status}
use acos_chat.Client
use acos_chat.Client.Listener.{kick_reason, status_code, interpret}
use acos_chat.Client.Events.{on_listed, user_line}
use acos_chat.Client.Received.{IsText, understood, understood-pack_message, p_str_to_c_str-received}

pub read_int_code : (code : ℕ) → code < u32 → read_int (be32 code) ≡ some code
read_int_code code h = ap read_int (sym (append-nil (be32 code))) ∙ read_int-be32 code [] h

short : (code : ℕ) → length (pack_tokens (int32 code ∷ [])) < 2 ^ 31
unfolding pack_tokens be32
short code = omega arith

abbrev pub or_empty : Option (List ℕ) → List ℕ
or_empty none = []
or_empty (some s) = s

-- For every status below 2 ^ 32, what `send_status_code` sends reaches the client as this status.
pub client_gets_status :
    (code fuel : ℕ)
    → code < u32
    → 1 < fuel
    → understood fuel (status_buffer code) ≡ done (some (status code ∷ []))
unfolding interpret status_code
client_gets_status code fuel h f =
    ap (understood fuel) (status_buffer_lem code)
    ∙ understood-pack_message (record { msg_type = message_status; tokens = int32 code ∷ [] }) fuel
        (h, tt) (short code) f
    ∙ ap done (rw (status_code, read_int_code code h) refl)

module _ {D : Type 0} (api : Database D) (decimal : ℕ → List ℕ) where
  -- The lines for these users.
  abbrev pub user_lines : ℕ → D → List ℕ → List Client.Effect
  user_lines now db [] = []
  user_lines now db (uid ∷ uids) =
      user_line decimal now (or_empty (api.get_login_by_uid db uid)) uid ∷ user_lines now db uids

  -- For users below 2 ^ 32 whose logins the data base knows, without zero bytes: the worker makes
  -- tokens for the list, and from what arrives of them the client displays a line with the login
  -- and the uid of each user, in order.
  pub client_shows_list :
      (now : ℕ) (db : D) (uids : List ℕ)
      → All
          (λ uid.
            (uid < u32)
            × (login : List ℕ) × (api.get_login_by_uid db uid ≡ some login)
            × IsText login)
          uids
      → (tokens : List Token) × (list_tokens api db uids ≡ some tokens)
        × (on_listed decimal now (map received tokens) ≡ some (user_lines now db uids))
  unfolding list_tokens on_listed
  client_shows_list now db [] h = ([], refl, refl)
  client_shows_list now db (uid ∷ uids) ((small, login, known, text), rest) =
      let (tokens, made, lines) = client_shows_list now db uids rest in
      (
        int32 uid ∷ c_str login ∷ tokens,
        rw (list_tokens, known, made) refl,
        rw (on_listed, read_int_code uid small, p_str_to_c_str-received login text, lines, known)
            refl,
      )

-- For a reason without a zero byte that is shorter than 2 ^ 31 - 4 bytes, what `kick_callback` sends reaches
-- the client as a kick for this reason.
pub client_gets_kick :
    (reason : List ℕ) (fuel : ℕ)
    → IsText reason
    → length reason < 2 ^ 31 - 4
    → 1 < fuel
    → understood fuel (
        pack_message
          (record { msg_type = message_kick; tokens = p_str (received (c_str reason)) ∷ [] }))
      ≡ done (some (kicked reason ∷ []))
unfolding interpret kick_reason
client_gets_kick reason fuel h small f =
    let token : Token = p_str (received (c_str reason)) in
    let fits : IsToken token = (omega arith, refl) in
    understood-pack_message (record { msg_type = message_kick; tokens = token ∷ [] }) fuel
      (fits, tt) (omega (arith, length-pack_tokens_cons token [] fits, length-pack_tokens_nil)) f
    ∙ ap done (rw (kick_reason, take_all reason, p_str_to_c_str-received reason h) refl)
