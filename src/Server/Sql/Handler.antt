-- ===== src/Server/Sql/Handler.antt =====
-- The message handler on the functions of db.c.
use acos_chat.Base.{ℕ, ◌≡◌, ◌≢◌, List, some}
use acos_chat.Base.Int.{pos}
use acos_chat.ConnMgr.Inv.{Inv}
use acos_chat.Server.{Effect}
use acos_chat.Server.Process.{Job, Shared, process_message}
use acos_chat.Server.Process.Keeps.{process_message-Inv}
use acos_chat.Server.Sql.{Sqlite, database}
use acos_chat.Server.Sql.Answers.{AllRows}
use acos_chat.Server.Sql.Accounts.{login_or_register-NotZero}

-- On SQLite with a table of users that has no uid 0 and a next uid that is not 0, the handler
-- leaves a consistent connection manager consistent, for every message of every type, whenever it
-- returns.
pub process_message-Inv_sql :
    {D : Type 0} (sqlite : Sqlite D) (sines : ℕ → ℕ) (now : ℕ) (job : Job) (s : Shared D)
    (r : Shared D × List Effect)
    → Inv s.conn_mgr
    → ((db : D) (login : List ℕ)
        → AllRows (λ account. account.uid ≢ pos 0) (sqlite.accounts db login))
    → ((db : D) → AllRows (λ next. next ≢ pos 0) (sqlite.next_uid db))
    → process_message (database sqlite sines) now job s ≡ some r
    → Inv r.0.conn_mgr
process_message-Inv_sql sqlite sines now job s r i accounts next e =
    process_message-Inv (database sqlite sines) now job s r i
      (λ db login passwd.
        login_or_register-NotZero sqlite sines db login passwd (accounts db login) (next db))
      e
