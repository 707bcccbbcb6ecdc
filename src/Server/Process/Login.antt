-- ===== src/Server/Process/Login.antt =====
-- What a client's login changes.
use acos_chat.Base.{
  ℕ, ◌≡◌, ◌≢◌, refl, sym, ap, ◌&&◌, List, [], ◌∷◌, ◌++◌, length, if◌then◌else◌, ◌==◌, codes,
}
use acos_chat.Base.Int.{ℤ, pos, negsuc}
use acos_chat.TsMap.Laws.{view}
use acos_chat.ConnMgr.{ConnMgr, add_uid, connect_sid_uid, number_of_sessions}
use acos_chat.ConnMgr.Inv.{Inv, known, owner}
use acos_chat.ConnMgr.Connect.{connect_sid_uid-Inv, connect_sid_uid-owner}
use acos_chat.ConnMgr.Users.{add_uid-Inv}
use acos_chat.ConnMgr.Sessions.{keys_of, number_of_sessions-length}
use acos_chat.ConnMgr.Queries.{number_of_sessions-Inv, add_uid_registers}
use acos_chat.Message.{PascalString}
use acos_chat.Server.{sends_status, status_ok}
use acos_chat.Server.Database.{Database}
use acos_chat.Server.Process.{Shared, logged_in, on_login, p_str_to_c_str, meta}

module _ (c : ConnMgr) (i : Inv c) (sid uid : ℕ) (nz : uid ≢ 0) where
  asked : ConnMgr
  asked = (number_of_sessions c uid).0

  asked-Inv : Inv asked
  unfolding asked
  asked-Inv = number_of_sessions-Inv c i uid

  -- The manager after the calls of a login.
  joined : ConnMgr
  joined = connect_sid_uid (add_uid asked uid) sid uid

  joined-Inv : Inv joined
  unfolding joined
  joined-Inv =
      connect_sid_uid-Inv (add_uid asked uid) sid uid (add_uid-Inv asked uid asked-Inv nz)
        (add_uid_registers asked asked-Inv uid)

  asked_sids : (add_uid asked uid).sid_to_uid ≡ c.sid_to_uid
  unfolding add_uid asked
  asked_sids = (number_of_sessions-length c uid i nz).1

  joined-owner :
      (s : ℕ)
      → (known joined s ≡ known c s)
        × (owner joined s ≡ (if known c sid && (sid == s) then uid else owner c s))
  unfolding joined
  joined-owner s = rw (sym asked_sids) (
      connect_sid_uid-owner (add_uid asked uid) sid uid (add_uid-Inv asked uid asked-Inv nz)
        (add_uid_registers asked asked-Inv uid) s)

-- The manager `after` is consistent and knows the connections that `c` knows.
abbrev pub Keeps : ConnMgr → ConnMgr → Type 0
Keeps c after = Inv after × ((q : ℕ) → known after q ≡ known c q)

module _ {D : Type 0} (api : Database D) where
  -- A login that the data base accepts as that of the user `uid`, not 0, in a consistent manager:
  -- the manager stays consistent; the client's connection, if it is known, now belongs to the
  -- user, all others keep their owner, and no connection becomes known or unknown; the client gets
  -- `MSG_STATUS_OK`, and the login is announced to everybody exactly if the user had no connection
  -- before.
  pub on_login_lem :
      (now sockid : ℕ) (name secret : PascalString) (rest : List PascalString) (s : Shared D)
      (uid : ℕ)
      → Inv s.conn_mgr
      → uid ≢ 0
      → (api.login_or_register s.db (p_str_to_c_str name) (p_str_to_c_str secret)).1 ≡ pos uid
      → Inv (on_login api now sockid (name ∷ secret ∷ rest) s).0.conn_mgr
        × ((q : ℕ)
            → (known (on_login api now sockid (name ∷ secret ∷ rest) s).0.conn_mgr q
                ≡ known s.conn_mgr q)
              × (owner (on_login api now sockid (name ∷ secret ∷ rest) s).0.conn_mgr q
                  ≡ (if known s.conn_mgr sockid && (sockid == q) then uid else owner s.conn_mgr q)))
        × ((on_login api now sockid (name ∷ secret ∷ rest) s).1 ≡ (
            sends_status sockid status_ok
            ∷ (if length (keys_of uid (view s.conn_mgr.sid_to_uid)) == 0
                then meta now (codes "User '" ++ p_str_to_c_str name ++ codes "' has logged in")
                  ∷ []
                else [])))
  unfolding on_login logged_in joined asked
  on_login_lem now sockid name secret rest s uid i nz accepted = rw accepted (
    joined-Inv s.conn_mgr i sockid uid nz,
    joined-owner s.conn_mgr i sockid uid nz,
    rw ((number_of_sessions-length s.conn_mgr uid i nz).0) refl,
  )

  pub logged_in-Keeps :
      (now sockid : ℕ) (login : List ℕ) (s : Shared D) (answer : ℤ)
      → Inv s.conn_mgr
      → answer ≢ pos 0
      → Keeps s.conn_mgr (logged_in api now sockid login s answer).0.conn_mgr
  unfolding logged_in joined asked
  logged_in-Keeps now sockid login s (negsuc n) i nz = (i, λ q. refl)
  logged_in-Keeps now sockid login s (pos uid) i nz =
      let known_uid : uid ≢ 0 = λ e. nz (ap pos e) in
      (
        joined-Inv s.conn_mgr i sockid uid known_uid,
        λ q. (joined-owner s.conn_mgr i sockid uid known_uid q).0,
      )
