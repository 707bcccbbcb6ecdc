-- ===== src/Tests/Accounts.antt =====
-- Runs of lab_2/chat/src/server/db.c on a list of accounts.
use acos_chat.Base.{
  ℕ, suc, ◌≡◌, refl, subst, inl, inr, Bool, true, false, Bool-cases, ◌==◌, arith, List, [], ◌∷◌,
  some, length, if◌then◌else◌, codes,
}
use acos_chat.Base.Int.{ℤ, pos}
use acos_chat.Server.Sql.{
  Step, row, busy, failed, Tried, again, refused, Account, Sqlite, auth_error, same_text,
  insert_done, login_or_register,
}
use acos_chat.Server.Sql.Answers.{Answers}
use acos_chat.Server.Sql.Accounts.{
  Inserts, same_text_refl, login_or_register_again, login_or_register_unread,
}
use acos_chat.Server.Start.{Setup, prepare_db}
use acos_chat.Server.Start.Root.{prepare_db_lem}
use acos_chat.Md5.{
  md5hex, start, steps, md5sum, padded, hex, hex_digit, digest, le32, message_size, le64,
  add_blocks, add_block, step, md5round, rotate_left, from_le, funcs, func_f, func_g, func_h,
  func_i, shifts, stored_shift, get_k_from_i,
}
use acos_chat.Tests.Libraries.{sines}

-- The accounts with their logins, the last one first.
abbrev Accounts : Type 0
Accounts = List (List ℕ × Account)

abbrev accounts : Accounts → List ℕ → List (Step Account)
accounts [] login = []
accounts ((name, account) ∷ db) login =
    if same_text name login then row account ∷ accounts db login else accounts db login

-- The numbers of `uid` are not negative here.
abbrev same_uid : ℤ → ℤ → Bool
same_uid (pos m) (pos n) = m == n
same_uid x y = false

-- `uid` is the primary key.
abbrev taken : Accounts → ℤ → Bool
taken [] uid = false
taken ((name, account) ∷ db) uid = if same_uid account.uid uid then true else taken db uid

abbrev inserted : Accounts → ℤ → List ℕ → List ℕ → Bool → Accounts × List Tried
inserted db uid login hash true = (db, refused ∷ [])
inserted db uid login hash false =
    ((login, record { uid = uid; password_hash = hash }) ∷ db, again ∷ [])

abbrev logins : Accounts → ℕ → List (Step (List ℕ))
logins [] uid = []
logins ((name, account) ∷ db) uid =
    if same_uid account.uid (pos uid) then row name ∷ logins db uid else logins db uid

abbrev sqlite : Sqlite Accounts
sqlite = record {
  accounts = accounts;
  next_uid = λ db. busy ∷ row (pos (suc (length db))) ∷ [];
  insert_user = λ db uid login hash. inserted db uid login hash (taken db uid);
  logins = logins;
  messages = λ db limit. [];
}

free_uid : (db : Accounts) (uid : ℕ) → Answers (logins db uid) [] → taken db (pos uid) ≡ false
free_uid [] uid h = refl
free_uid ((name, account) ∷ db) uid h = elim (Bool-cases (same_uid account.uid (pos uid))) [
  | inl e ↦
      absurd (subst (λ b. Answers (if b then row name ∷ logins db uid else logins db uid) []) e h)
  | inr e ↦ rw e (
      free_uid db uid
        (subst (λ b. Answers (if b then row name ∷ logins db uid else logins db uid) []) e h))
]

sqlite-Inserts : Inserts sqlite (λ i. i)
unfolding insert_done
sqlite-Inserts db login hash uid small none_there free =
    rw (free_uid db uid free) (refl, rw (same_text_refl login) (refl, none_there))

different : same_text (md5hex sines (codes "b")) (md5hex sines (codes "a")) ≡ false
unfolding md5hex md5sum hex hex_digit digest le32 start padded message_size le64 add_blocks
    add_block steps step md5round rotate_left from_le funcs func_f func_g func_h func_i shifts
    stored_shift get_k_from_i
different = refl

-- A new user.
abbrev two : Accounts
two = (codes "root", record { uid = pos 1; password_hash = [] }) ∷ []

login_or_register_again_example :
    (db : Accounts) × (login_or_register sqlite sines two (codes "u") (codes "a") ≡ (db, pos 2))
    × (login_or_register sqlite sines db (codes "u") (codes "a") ≡ (db, pos 2))
    × (login_or_register sqlite sines db (codes "u") (codes "b") ≡ (db, auth_error))
login_or_register_again_example =
    login_or_register_again sqlite sines two (codes "u") (codes "a") (codes "b") 2 sqlite-Inserts
      (omega arith) tt (refl, tt) tt different

-- A data base that is locked for longer than SQLite waits.
abbrev locked : Sqlite Accounts
locked = record sqlite { accounts = λ db login. busy ∷ failed true ∷ [] }

login_or_register_unread_example :
    login_or_register locked sines two (codes "u") (codes "a") ≡ (two, auth_error)
login_or_register_unread_example =
    login_or_register_unread locked sines two (codes "u") (codes "a") true (busy ∷ []) [] refl

-- A first start, without users.
abbrev setup : Setup Accounts
setup = record { init = λ db. db; roots = λ db. [] }

prepare_db_lem_example :
    (db : Accounts) × (prepare_db setup sqlite sines (codes "a") [] ≡ some db)
    × (login_or_register sqlite sines db (codes "root") (codes "a") ≡ (db, pos 1))
    × (login_or_register sqlite sines db (codes "root") (codes "b") ≡ (db, auth_error))
prepare_db_lem_example =
    prepare_db_lem setup sqlite sines [] (codes "a") (codes "b") sqlite-Inserts refl tt tt different
