-- ===== src/Server/Sql.antt =====
-- lab_2/chat/src/server/db.c: what its functions make of the results of `sqlite3_step`. The results of
-- a statement are a list, one for each call of `sqlite3_step`, after which it answers `SQLITE_DONE`:
-- the code calls it again only then, or stops. SQLite itself is the parameter `Sqlite`.
pub mod Answers
pub mod Accounts
pub mod Handler
use acos_chat.Base.{
  ℕ, zero, suc, List, [], ◌∷◌, ◌++◌, Bool, true, false, Option, none, some, ◌>>=◌, if◌then◌else◌,
  ◌==◌,
}
use acos_chat.Base.Int.{ℤ, pos, negsuc}
use acos_chat.Md5.{md5hex}
use acos_chat.Server.Database.{Row, Database}

-- `SQLITE_ROW` with the columns, `SQLITE_BUSY`, or another code but `SQLITE_DONE`; `is_error` tells
-- `SQLITE_ERROR`.
pub data Step (R : Type 0) : Type 0 where
  row : R → Step R
  busy : Step R
  failed : Bool → Step R

-- The results of the INSERT before `SQLITE_DONE`: a code for which the loop steps again, as `SQLITE_BUSY`, or
-- `SQLITE_ERROR`, which a step of a statement made by `sqlite3_prepare` answers for every other failure, that of
-- a constraint too. For a statement that could not be made it would answer `SQLITE_MISUSE` for good; that is not
-- here.
pub data Tried : Type 0 where
  again refused : Tried

-- The columns `uid` and `password_hash`.
pub record Account : Type 0 where
  pub uid : ℤ
  pub password_hash : List ℕ

pub record Sqlite (D : Type 0) : Type 0 where
  -- SELECT uid, password_hash FROM users WHERE login = ?001;
  pub accounts : D → List ℕ → List (Step Account)
  -- SELECT MAX(uid) + 1 FROM USERS;
  pub next_uid : D → List (Step ℤ)
  -- INSERT INTO users VALUES (?001, ?002, ?003);
  pub insert_user : D → ℤ → List ℕ → List ℕ → D × List Tried
  -- SELECT login FROM users WHERE uid = ?001;
  pub logins : D → ℕ → List (Step (List ℕ))
  -- SELECT * FROM (SELECT * FROM messages ORDER BY tstamp DESC LIMIT ?001) AS t ORDER BY tstamp;
  pub messages : D → ℕ → List (Step Row)

-- `-MSG_STATUS_AUTH_ERROR` and `-MSG_STATUS_REG_ERROR`.
abbrev pub auth_error : ℤ
auth_error = negsuc 2

abbrev pub reg_error : ℤ
reg_error = negsuc 3

-- `strcmp(s, t) == 0`
abbrev pub same_text : List ℕ → List ℕ → Bool
same_text [] [] = true
same_text [] (y ∷ ys) = false
same_text (x ∷ xs) [] = false
same_text (x ∷ xs) (y ∷ ys) = if x == y then same_text xs ys else false

-- The loop `while ((rc = sqlite3_step(stmt)) != SQLITE_DONE)` of the reading functions, with the body
-- `use_row` for a row; `waiting` in its inner loop, which `SQLITE_DONE` also ends. The result is none
-- where `rc != SQLITE_ROW`.
unfoldable pub read_rows {ℓ} :
    {R : Type 0} {A : Type ℓ} → (A → R → A) → A → Bool → List (Step R) → Option A
read_rows use_row a false [] = some a
read_rows use_row a true [] = none
read_rows use_row a waiting (busy ∷ results) = read_rows use_row a true results
read_rows use_row a waiting (failed error ∷ results) = none
read_rows use_row a waiting (row r ∷ results) = read_rows use_row (use_row a r) false results

-- The loop of the INSERT: whether it ends at `SQLITE_DONE`.
unfoldable pub insert_done : List Tried → Bool
insert_done [] = true
insert_done (refused ∷ results) = false
insert_done (again ∷ results) = insert_done results

-- `rows` and `uid` of `login_or_register`.
pub record Found : Type 0 where
  pub rows : ℕ
  pub uid : ℤ

abbrev pub compare_hash : List ℕ → Found → Account → Found
compare_hash hash found account = record {
  rows = suc found.rows;
  uid = if same_text hash account.password_hash then account.uid else found.uid;
}

module _ {D : Type 0} (sqlite : Sqlite D) where
  -- The INSERT, with the uid to give.
  unfoldable pub add_account : D → List ℕ → List ℕ → Option ℤ → D × ℤ
  add_account db login hash none = (db, reg_error)
  add_account db login hash (some uid) =
      let inserted = sqlite.insert_user db uid login hash in
      (inserted.0, if insert_done inserted.1 then uid else reg_error)

  -- From `if (rows == 0)` on.
  unfoldable pub register : D → List ℕ → List ℕ → Option Found → D × ℤ
  register db login hash none = (db, auth_error)
  register db login hash (some found) =
      if found.rows == 0
      then add_account db login hash
          (read_rows (λ uid next. next) found.uid false (sqlite.next_uid db))
      else (db, found.uid)

  unfoldable pub login_or_register : (ℕ → ℕ) → D → List ℕ → List ℕ → D × ℤ
  login_or_register sines db login passwd =
      let hash = md5hex sines passwd in
      register db login hash (
        read_rows (compare_hash hash) (record { rows = 0; uid = auth_error }) false
          (sqlite.accounts db login))

  -- None is NULL.
  unfoldable pub get_login_by_uid : D → ℕ → Option (List ℕ)
  get_login_by_uid db uid =
      read_rows (λ ans login. some login) none false (sqlite.logins db uid) >>= (λ ans. ans)

-- The loop of `browse_history`: the rows that the callback reads, none where it reads the columns of a
-- statement that is finalized.
unfoldable pub browse_steps : Bool → List (Step Row) → Option (List Row)
browse_steps false [] = some []
browse_steps true [] = none
browse_steps waiting (busy ∷ results) = browse_steps true results
browse_steps waiting (failed error ∷ results) = none
browse_steps waiting (row r ∷ results) = do rest ← browse_steps false results; some (r ∷ rest)

abbrev pub or_none : Option (List Row) → List Row
or_none none = []
or_none (some rows) = rows

-- What the handlers use of the file, where the statements of `browse_history` run to their end.
abbrev pub database : {D : Type 0} → Sqlite D → (ℕ → ℕ) → Database D
database sqlite sines = record {
  login_or_register = login_or_register sqlite sines;
  get_login_by_uid = get_login_by_uid sqlite;
  last_messages = λ db limit. or_none (browse_steps false (sqlite.messages db limit));
}
