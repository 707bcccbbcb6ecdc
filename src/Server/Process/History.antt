-- ===== src/Server/Process/History.antt =====
-- The answer to `MESSAGE_CLIENT_HISTORY`.
use acos_chat.Base.{ℕ, List, [], ◌∷◌}
use acos_chat.Message.{int64, c_str}
use acos_chat.Server.{Effect, sends, message_history}
use acos_chat.Server.Database.{Row, Database}

module _ {D : Type 0} (api : Database D) where
  browsed : ℕ → Row → List ℕ → Effect
  browsed sid row login = sends sid (record {
    msg_type = message_history;
    tokens = int64 row.tstamp ∷ c_str login ∷ c_str row.text ∷ [];
  })
