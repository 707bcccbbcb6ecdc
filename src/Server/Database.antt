-- ===== src/Server/Database.antt =====
-- What the handlers use of lab_2/chat/src/server/db.c. Its functions only run SQL statements in
-- SQLite, which the interface stands for: `D` is the content of the data base.
use acos_chat.Base.{ℕ, List, Option}
use acos_chat.Base.Int.{ℤ}

-- A row of the table `messages`.
pub record Row : Type 0 where
  pub uid : ℕ
  pub text : List ℕ
  pub tstamp : ℕ

-- `login_or_register` returns the uid or a negative status; `get_login_by_uid` the login or NULL;
-- `last_messages` the rows that the statement of `browse_history` selects for a limit.
pub record Database (D : Type 0) : Type 0 where
  pub login_or_register : D → List ℕ → List ℕ → D × ℤ
  pub get_login_by_uid : D → ℕ → Option (List ℕ)
  pub last_messages : D → ℕ → List Row
