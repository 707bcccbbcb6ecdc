-- ===== src/Server/Sql/Accounts.antt =====
-- `login_or_register` and `get_login_by_uid` against the table of users.
use acos_chat.Base.{
  ◌≡◌, ◌≢◌, ◌<◌, ◌^◌, refl, ap, ◌∙◌, ℕ, Bool, true, false, List, [], ◌∷◌, Option, none, some, ◌==◌,
  if◌then◌else◌, ==_refl, if_both, ◌++◌,
}
use acos_chat.Base.Int.{ℤ, pos}
use acos_chat.Md5.{md5hex}
use acos_chat.Server.Sql.{
  Step, failed, Account, Sqlite, Found, auth_error, reg_error, same_text, insert_done, compare_hash,
  add_account, register, login_or_register,
}
use acos_chat.Server.Sql.Answers.{
  Answers, AllRows, read_rows_lem, read_rows_failed, read_rows_keeps,
}

pub same_text_refl : (s : List ℕ) → same_text s s ≡ true
same_text_refl [] = refl
same_text_refl (x ∷ s) = rw ==_refl (same_text_refl s)

module _ {D : Type 0} (sqlite : Sqlite D) (sines : ℕ → ℕ) where
  -- The answer for a login that has one account.
  pub known_account :
      (db : D) (login passwd : List ℕ) (account : Account)
      → Answers (sqlite.accounts db login) (account ∷ [])
      → login_or_register sqlite sines db login passwd ≡ (
        db,
        if same_text (md5hex sines passwd) account.password_hash then account.uid else auth_error,
      )
  unfolding login_or_register register
  known_account db login passwd account h = rw (
    login_or_register,
    read_rows_lem (compare_hash (md5hex sines passwd)) (record { rows = 0; uid = auth_error })
        (sqlite.accounts db login) (account ∷ []) h,
  )

  -- The answer for a login without an account.
  new_account :
      (db : D) (login passwd : List ℕ) (next : ℤ)
      → Answers (sqlite.accounts db login) []
      → Answers (sqlite.next_uid db) (next ∷ [])
      → login_or_register sqlite sines db login passwd ≡ (
        (sqlite.insert_user db next login (md5hex sines passwd)).0,
        if insert_done (sqlite.insert_user db next login (md5hex sines passwd)).1
            then next
            else reg_error,
      )
  unfolding login_or_register register add_account
  new_account db login passwd next h n = rw (
    login_or_register,
    read_rows_lem (compare_hash (md5hex sines passwd)) (record { rows = 0; uid = auth_error })
        (sqlite.accounts db login) [] h,
    register,
    read_rows_lem (λ uid next. next) auth_error (sqlite.next_uid db) (next ∷ []) n,
  )

  -- Of SQLite: the INSERT for a login without an account and a uid of no user, the primary key of the table, is
  -- done, and then the login has this account.
  abbrev pub Inserts : Type 0
  Inserts =
      (db : D) (login hash : List ℕ) (uid : ℕ)
      → uid < 2 ^ 31
      → Answers (sqlite.accounts db login) []
      → Answers (sqlite.logins db uid) []
      → (insert_done (sqlite.insert_user db (pos uid) login hash).1 ≡ true)
        × Answers (sqlite.accounts (sqlite.insert_user db (pos uid) login hash).0 login)
            (record { uid = pos uid; password_hash = hash } ∷ [])

  -- Where an INSERT of a login without an account, with a uid below 2 ^ 31 of no user, does what
  -- SQL says, the login has no account and the statement for the next uid answers one row with a
  -- uid of no user below 2 ^ 31: `login_or_register` answers this uid; a second call with the same
  -- password then answers the same uid and changes nothing, and a call with a password of another
  -- MD5 sum answers -3, the status of a failed login.
  pub login_or_register_again :
      (db : D) (login passwd other : List ℕ) (next : ℕ)
      → Inserts
      → next < 2 ^ 31
      → Answers (sqlite.accounts db login) []
      → Answers (sqlite.next_uid db) (pos next ∷ [])
      → Answers (sqlite.logins db next) []
      → same_text (md5hex sines other) (md5hex sines passwd) ≡ false
      → (db' : D) × (login_or_register sqlite sines db login passwd ≡ (db', pos next))
        × (login_or_register sqlite sines db' login passwd ≡ (db', pos next))
        × (login_or_register sqlite sines db' login other ≡ (db', auth_error))
  login_or_register_again db login passwd other next ins small h n free differs =
      let hash = md5hex sines passwd in
      let done = ins db login hash next small h free in
      let db' = (sqlite.insert_user db (pos next) login hash).0 in
      let account : Account = record { uid = pos next; password_hash = hash } in
      (
        db',
        new_account db login passwd (pos next) h n
            ∙ ap (λ b. (db', if b then pos next else reg_error)) done.0,
        known_account db' login passwd account done.1
            ∙ ap (λ b. (db', if b then pos next else auth_error)) (same_text_refl hash),
        known_account db' login other account done.1
            ∙ ap (λ b. (db', if b then pos next else auth_error)) differs,
      )

  -- A step of the first SELECT that fails, after any other results, makes the answer -3 and
  -- changes nothing, whatever the password is.
  pub login_or_register_unread :
      (db : D) (login passwd : List ℕ) (error : Bool) (before after : List (Step Account))
      → sqlite.accounts db login ≡ before ++ failed error ∷ after
      → login_or_register sqlite sines db login passwd ≡ (db, auth_error)
  unfolding login_or_register register
  login_or_register_unread db login passwd error before after e = rw (
    login_or_register,
    e,
    read_rows_failed (compare_hash (md5hex sines passwd)) (record { rows = 0; uid = auth_error })
        false error before after,
  )

  -- A failed step of the second SELECT, for a login without an account, makes the answer -4 and
  -- changes nothing.
  pub login_or_register_unnumbered :
      (db : D) (login passwd : List ℕ) (error : Bool) (before after : List (Step ℤ))
      → Answers (sqlite.accounts db login) []
      → sqlite.next_uid db ≡ before ++ failed error ∷ after
      → login_or_register sqlite sines db login passwd ≡ (db, reg_error)
  unfolding login_or_register register add_account
  login_or_register_unnumbered db login passwd error before after h e = rw (
    login_or_register,
    read_rows_lem (compare_hash (md5hex sines passwd)) (record { rows = 0; uid = auth_error })
        (sqlite.accounts db login) [] h,
    register,
    e,
    read_rows_failed (λ uid next. next) auth_error false error before after,
  )

  auth_error-NotZero : auth_error ≢ pos 0
  auth_error-NotZero e = absurd (cc)

  reg_error-NotZero : reg_error ≢ pos 0
  reg_error-NotZero e = absurd (cc)

  add_account-NotZero :
      (db : D) (login hash : List ℕ) (found : Option ℤ)
      → ((uid : ℤ) → found ≡ some uid → uid ≢ pos 0)
      → (add_account sqlite db login hash found).1 ≢ pos 0
  unfolding add_account
  add_account-NotZero db login hash none h = reg_error-NotZero
  add_account-NotZero db login hash (some uid) h =
      if_both (λ answer. answer ≢ pos 0) (insert_done (sqlite.insert_user db uid login hash).1)
        (h uid refl) reg_error-NotZero

  register-NotZero :
      (db : D) (login hash : List ℕ) (found : Option Found)
      → AllRows (λ next. next ≢ pos 0) (sqlite.next_uid db)
      → ((f : Found) → found ≡ some f → f.uid ≢ pos 0)
      → (register sqlite db login hash found).1 ≢ pos 0
  unfolding register
  register-NotZero db login hash none n h = auth_error-NotZero
  register-NotZero db login hash (some f) n h =
      if_both (λ (answer : D × ℤ). answer.1 ≢ pos 0) (f.rows == 0)
        (add_account-NotZero db login hash _ (λ uid e.
          read_rows_keeps (λ uid next. next) (λ uid. uid ≢ pos 0) (λ next. next ≢ pos 0)
            (λ a r p good. good) f.uid false (sqlite.next_uid db) n (h f refl) e))
        (h f refl)

  -- Where the table of users has no uid 0 and the next uid is not 0, `login_or_register` never answers 0.
  pub login_or_register-NotZero :
      (db : D) (login passwd : List ℕ)
      → AllRows (λ account. account.uid ≢ pos 0) (sqlite.accounts db login)
      → AllRows (λ next. next ≢ pos 0) (sqlite.next_uid db)
      → (login_or_register sqlite sines db login passwd).1 ≢ pos 0
  unfolding login_or_register
  login_or_register-NotZero db login passwd h n =
      register-NotZero db login (md5hex sines passwd) _ n (λ f e.
        read_rows_keeps (compare_hash (md5hex sines passwd)) (λ found. found.uid ≢ pos 0)
          (λ account. account.uid ≢ pos 0)
          (λ found account p good.
            if_both (λ uid. uid ≢ pos 0) (same_text (md5hex sines passwd) account.password_hash)
              good p)
          (record { rows = 0; uid = auth_error }) false (sqlite.accounts db login) h
          auth_error-NotZero e)
