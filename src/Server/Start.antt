-- ===== src/Server/Start.antt =====
-- The start of the server: `prepare_db` of lab_2/chat/src/server/db.c, and `prepare_conn_mgr` of
-- lab_2/chat/src/server/main.c. The rows that `sqlite3_exec` hands to a callback are arguments.
pub mod Root
pub mod Users
use acos_chat.Base.{ℕ, List, [], ◌∷◌, Option, none, some, if◌then◌else◌, ◌==◌, length, codes}
use acos_chat.Base.Int.{pos}
use acos_chat.Md5.{md5hex}
use acos_chat.ConnMgr.{ConnMgr, add_uid}
use acos_chat.Server.{root_uid}
use acos_chat.Server.Sql.{Sqlite, insert_done}

-- What `sqlite3_exec` does with the two texts of `prepare_db`.
pub record Setup (D : Type 0) : Type 0 where
  -- DB_INIT, which makes the tables that are not there.
  pub init : D → D
  -- SELECT * FROM users WHERE login='root'; as the columns of each row.
  pub roots : D → List (List (List ℕ))

-- `count_callback` on each row.
unfoldable pub count_callback : ℕ → List (List (List ℕ)) → ℕ
count_callback n [] = n
count_callback n (columns ∷ rows) = count_callback (length columns) rows

module _ {D : Type 0} (setup : Setup D) (sqlite : Sqlite D) (sines : ℕ → ℕ) where
  -- The INSERT, with the password that `getpass` answers; none is the end of the program.
  unfoldable pub add_root : List ℕ → D → Option D
  add_root passwd db =
      let inserted = sqlite.insert_user db (pos root_uid) (codes "root") (md5hex sines passwd) in
      if insert_done inserted.1 then some inserted.0 else none

  unfoldable pub prepare_db : List ℕ → D → Option D
  prepare_db passwd db =
      let ready = setup.init db in
      if count_callback 0 (setup.roots ready) == 0 then add_root passwd ready else some ready

-- `prepare_conn_mgr` with its callback; a row without columns ends the statement.
unfoldable pub prepare_conn_mgr : (List ℕ → ℕ) → List (List (List ℕ)) → ConnMgr → ConnMgr
prepare_conn_mgr atoi [] mgr = mgr
prepare_conn_mgr atoi ([] ∷ rows) mgr = mgr
prepare_conn_mgr atoi ((uid ∷ columns) ∷ rows) mgr =
    prepare_conn_mgr atoi rows (add_uid mgr (atoi uid))
