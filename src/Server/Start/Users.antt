-- ===== src/Server/Start/Users.antt =====
-- The users that the connection manager knows from the start.
use acos_chat.Base.{ℕ, ◌≡◌, ◌≢◌, refl, ◌∙◌, false, not, ◌||◌, List, [], ◌∷◌, All, ◌==◌, arith}
use acos_chat.ConnMgr
use acos_chat.ConnMgr.{ConnMgr, add_uid}
use acos_chat.ConnMgr.Inv.{Inv, known, owner, address}
use acos_chat.ConnMgr.Refines.{
  Table, adds_uid, empty, on_table, Reaches, started, later, conn_mgr-refines,
}
use acos_chat.Server.Process.Users.{is_in}
use acos_chat.Server.Start.{prepare_conn_mgr}

-- The uids that a statement answers, up to a row without columns.
abbrev pub uids_of : (List ℕ → ℕ) → List (List (List ℕ)) → List ℕ
uids_of atoi [] = []
uids_of atoi ([] ∷ rows) = []
uids_of atoi ((uid ∷ columns) ∷ rows) = atoi uid ∷ uids_of atoi rows

-- The table with these users too.
record Adds (t t' : Table) (uids : List ℕ) : Type 0 where
  pub is_open : (s : ℕ) → t'.is_open s ≡ t.is_open s
  pub user_of : (s : ℕ) → t'.user_of s ≡ t.user_of s
  pub listed : (u : ℕ) → t'.listed u ≡ (is_in u uids || t.listed u)

prepare_conn_mgr-Reaches :
    (atoi : List ℕ → ℕ) (rows : List (List (List ℕ))) (c : ConnMgr) (t : Table)
    → Reaches c t
    → All (λ u. u ≢ 0) (uids_of atoi rows)
    → (t' : Table) × Reaches (prepare_conn_mgr atoi rows c) t' × Adds t t' (uids_of atoi rows)
unfolding prepare_conn_mgr
prepare_conn_mgr-Reaches atoi [] c t r h =
    (t, r, record { is_open = λ s. refl; user_of = λ s. refl; listed = λ u. refl })
prepare_conn_mgr-Reaches atoi ([] ∷ rows) c t r h =
    (t, r, record { is_open = λ s. refl; user_of = λ s. refl; listed = λ u. refl })
prepare_conn_mgr-Reaches atoi ((uid ∷ columns) ∷ rows) c t r h =
    let rest =
      prepare_conn_mgr-Reaches atoi rows (add_uid c (atoi uid)) (on_table (adds_uid (atoi uid)) t)
        (later (adds_uid (atoi uid)) r h.0) h.1 in
    (
      rest.0,
      rest.1,
      record {
        is_open = rest.2.is_open;
        user_of = rest.2.user_of;
        listed = λ u. ground (arith, rest.2.listed u);
      },
    )

-- For rows of the table of users none of which gives the uid 0, `prepare_conn_mgr` makes a
-- consistent manager that knows no connection and exactly the users of the rows, up to a row
-- without columns.
pub prepare_conn_mgr_lem :
    (atoi : List ℕ → ℕ) (rows : List (List (List ℕ)))
    → All (λ u. u ≢ 0) (uids_of atoi rows)
    → Inv (prepare_conn_mgr atoi rows ConnMgr.init)
      × ((s : ℕ)
          → (known (prepare_conn_mgr atoi rows ConnMgr.init) s ≡ false)
            × (owner (prepare_conn_mgr atoi rows ConnMgr.init) s ≡ 0))
      × ((u : ℕ)
          → not (address (prepare_conn_mgr atoi rows ConnMgr.init) u == 0)
            ≡ is_in u (uids_of atoi rows))
prepare_conn_mgr_lem atoi rows h =
    let reached = prepare_conn_mgr-Reaches atoi rows ConnMgr.init empty started h in
    let holds = conn_mgr-refines reached.1 in
    (
      holds.inv,
      λ s. (holds.is_open s ∙ reached.2.is_open s, holds.user_of s ∙ reached.2.user_of s),
      λ u. holds.listed u ∙ ground (arith, reached.2.listed u),
    )
