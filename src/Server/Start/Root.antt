-- ===== src/Server/Start/Root.antt =====
-- The account of root.
use acos_chat.Base.{ℕ, ◌≡◌, refl, ap, ◌∙◌, false, List, [], some, if◌then◌else◌, codes, arith}
use acos_chat.Base.Int.{pos}
use acos_chat.Md5.{md5hex}
use acos_chat.Server.{root_uid}
use acos_chat.Server.Sql.{Sqlite, Account, auth_error, same_text, login_or_register}
use acos_chat.Server.Sql.Answers.{Answers}
use acos_chat.Server.Sql.Accounts.{Inserts, known_account, same_text_refl}
use acos_chat.Server.Start.{Setup, count_callback, add_root, prepare_db}

module _ {D : Type 0} (setup : Setup D) (sqlite : Sqlite D) (sines : ℕ → ℕ) where
  -- Where an INSERT of a login without an account, with a uid below 2 ^ 31 of no user, does what
  -- SQL says and there is no user root and none with the uid 1 after the tables are made, neither
  -- for `sqlite3_exec` nor for the statements of a login: `prepare_db` with a password returns a
  -- data base in which root logs in with this password as the uid 1, and not with one of another
  -- MD5 sum.
  pub prepare_db_lem :
      (db : D) (passwd other : List ℕ)
      → Inserts sqlite sines
      → setup.roots (setup.init db) ≡ []
      → Answers (sqlite.accounts (setup.init db) (codes "root")) []
      → Answers (sqlite.logins (setup.init db) root_uid) []
      → same_text (md5hex sines other) (md5hex sines passwd) ≡ false
      → (db' : D) × (prepare_db setup sqlite sines passwd db ≡ some db')
        × (login_or_register sqlite sines db' (codes "root") passwd ≡ (db', pos root_uid))
        × (login_or_register sqlite sines db' (codes "root") other ≡ (db', auth_error))
  unfolding prepare_db add_root count_callback
  prepare_db_lem db passwd other ins none_there h free differs =
      let hash = md5hex sines passwd in
      let made = ins (setup.init db) (codes "root") hash root_uid (omega arith) h free in
      let db' = (sqlite.insert_user (setup.init db) (pos root_uid) (codes "root") hash).0 in
      let account : Account = record { uid = pos root_uid; password_hash = hash } in
      (
        db',
        rw (none_there, made.0) refl,
        known_account sqlite sines db' (codes "root") passwd account made.1
            ∙ ap (λ b. (db', if b then pos root_uid else auth_error)) (same_text_refl hash),
        known_account sqlite sines db' (codes "root") other account made.1
            ∙ ap (λ b. (db', if b then pos root_uid else auth_error)) differs,
      )
