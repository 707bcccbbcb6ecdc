-- ===== src/ConnMgr/Refines.antt =====
-- The manager as a table: which connections are known, whose they are, and which users are registered.
use acos_chat.Base.{
  ℕ, ◌≡◌, ◌≢◌, refl, ap, ap₂, ◌∙◌, Bool, true, false, ◌||◌, ◌&&◌, not, if◌then◌else◌, ◌==◌, arith,
}
use acos_chat.TsMap.Spec.{has, get}
use acos_chat.ConnMgr.{ConnMgr, init, add_sid, add_uid, del_sid, connect_sid_uid, del_uid}
use acos_chat.ConnMgr.Inv.{Inv, known, owner, address, has-insert, get-insert, has-init, get-init}
use acos_chat.ConnMgr.Preserve.{init-Inv, add_sid-Inv, address-detach}
use acos_chat.ConnMgr.Connect.{connect_sid_uid-Inv, connect_sid_uid-owner, address-connect_sid_uid}
use acos_chat.ConnMgr.Users.{add_uid-Inv, del_uid-Inv, del_uid_effect, add_address, del_address}
use acos_chat.ConnMgr.Queries.{del_sid-Inv, del_sid_effect}

pub record Table : Type 0 where
  pub is_open : ℕ → Bool
  pub user_of : ℕ → ℕ
  pub listed : ℕ → Bool

abbrev pub empty : Table
empty = record { is_open = λ s. false; user_of = λ s. 0; listed = λ u. false }

-- The calls that change the manager.
pub data Call : Type 0 where
  adds_sid adds_uid dels_sid dels_uid : ℕ → Call
  connects : ℕ → ℕ → Call

-- What each should do. A user who leaves takes the connections along.
abbrev pub on_table : Call → Table → Table
on_table (adds_sid sid) t = record t { is_open = λ s. (sid == s) || t.is_open s }
on_table (adds_uid uid) t = record t { listed = λ u. (uid == u) || t.listed u }
on_table (dels_sid sid) t = record t {
  is_open = λ s. if sid == s then false else t.is_open s;
  user_of = λ s. if sid == s then 0 else t.user_of s;
}
on_table (dels_uid uid) t = record {
  is_open = λ s. t.is_open s && not (t.user_of s == uid);
  user_of = λ s. if t.user_of s == uid then 0 else t.user_of s;
  listed = λ u. if uid == u then false else t.listed u;
}
on_table (connects sid uid) t = record t {
  user_of = λ s. if t.is_open sid && (sid == s) then uid else t.user_of s;
}

abbrev pub on_mgr : Call → ConnMgr → ConnMgr
on_mgr (adds_sid sid) c = add_sid c sid
on_mgr (adds_uid uid) c = add_uid c uid
on_mgr (dels_sid sid) c = del_sid c sid
on_mgr (dels_uid uid) c = del_uid c uid
on_mgr (connects sid uid) c = connect_sid_uid c sid uid

-- The uid 0 is nobody's, and a connection is connected only to a registered user.
abbrev pub Allowed : Call → Table → Type 0
Allowed (adds_sid sid) t = Unit
Allowed (adds_uid uid) t = uid ≢ 0
Allowed (dels_sid sid) t = Unit
Allowed (dels_uid uid) t = uid ≢ 0
Allowed (connects sid uid) t = t.listed uid ≡ true

-- What allowed calls make of a new manager, beside what they make of the empty table.
pub data Reaches : ConnMgr → Table → Type 0 where
  started : Reaches init empty
  later :
      {c : ConnMgr} {t : Table} (call : Call)
      → Reaches c t
      → Allowed call t
      → Reaches (on_mgr call c) (on_table call t)

-- The manager holds the table.
pub record Holds (c : ConnMgr) (t : Table) : Type 0 where
  pub inv : Inv c
  pub is_open : (s : ℕ) → known c s ≡ t.is_open s
  pub user_of : (s : ℕ) → owner c s ≡ t.user_of s
  pub listed : (u : ℕ) → (not (address c u == 0)) ≡ t.listed u
  pub nowhere : (s : ℕ) → t.is_open s ≡ false → t.user_of s ≡ 0

init-Holds : Holds init empty
unfolding init get has
init-Holds = record {
  inv = init-Inv;
  is_open = λ s. has-init s;
  user_of = λ s. get-init s;
  listed = λ u. ap (λ n. not (n == 0)) (get-init u);
  nowhere = λ s e. refl;
}

module _ (c : ConnMgr) (t : Table) (h : Holds c t) where
  add_sid-Holds : (sid : ℕ) → Holds (add_sid c sid) (on_table (adds_sid sid) t)
  unfolding add_sid
  add_sid-Holds sid = record {
    inv = add_sid-Inv c sid h.inv;
    is_open =
        λ s. has-insert c.sid_to_uid h.inv.sids s sid 0 ∙ ap (λ b. (sid == s) || b) (h.is_open s);
    user_of = λ s.
        get-insert c.sid_to_uid h.inv.sids s sid 0
        ∙ ground (arith, h.is_open s, h.user_of s, h.nowhere s);
    listed = h.listed;
    nowhere = λ s e. ground (arith, h.nowhere s);
  }

  add_uid-Holds : (uid : ℕ) → uid ≢ 0 → Holds (add_uid c uid) (on_table (adds_uid uid) t)
  unfolding add_uid
  add_uid-Holds uid nz = record {
    inv = add_uid-Inv c uid h.inv nz;
    is_open = h.is_open;
    user_of = h.user_of;
    listed = λ u.
        ground (arith, add_address c uid h.inv u, h.listed u, h.inv.registered u, h.inv.fresh 0);
    nowhere = h.nowhere;
  }

  del_sid-Holds : (sid : ℕ) → Holds (del_sid c sid) (on_table (dels_sid sid) t)
  unfolding del_sid
  del_sid-Holds sid = record {
    inv = del_sid-Inv c h.inv sid;
    is_open = λ s.
        (del_sid_effect c h.inv sid s).0 ∙ ap (λ b. if sid == s then false else b) (h.is_open s);
    user_of =
        λ s. (del_sid_effect c h.inv sid s).1 ∙ ap (λ n. if sid == s then 0 else n) (h.user_of s);
    listed = λ u. ap (λ n. not (n == 0)) (address-detach c sid h.inv u) ∙ h.listed u;
    nowhere = λ s e. ground (arith, h.nowhere s);
  }

  del_uid-Holds : (uid : ℕ) → uid ≢ 0 → Holds (del_uid c uid) (on_table (dels_uid uid) t)
  del_uid-Holds uid nz = record {
    inv = del_uid-Inv c uid h.inv nz;
    is_open = λ s.
        (del_uid_effect c uid h.inv nz s).0
        ∙ ap₂ (λ a b. a && not (b == uid)) (h.is_open s) (h.user_of s);
    user_of = λ s.
        (del_uid_effect c uid h.inv nz s).1 ∙ ap (λ n. if n == uid then 0 else n) (h.user_of s);
    listed = λ u. ground (arith, del_address c uid h.inv u, h.listed u);
    nowhere = λ s e. ground (arith, h.nowhere s);
  }

  connect-Holds :
      (sid uid : ℕ)
      → t.listed uid ≡ true
      → Holds (connect_sid_uid c sid uid) (on_table (connects sid uid) t)
  connect-Holds sid uid l =
      let r : address c uid ≢ 0 = ground (arith, h.listed uid) in
      record {
        inv = connect_sid_uid-Inv c sid uid h.inv r;
        is_open = λ s. (connect_sid_uid-owner c sid uid h.inv r s).0 ∙ h.is_open s;
        user_of = λ s.
            (connect_sid_uid-owner c sid uid h.inv r s).1
            ∙ ap₂ (λ a b. if a && (sid == s) then uid else b) (h.is_open sid) (h.user_of s);
        listed =
            λ u. ap (λ n. not (n == 0)) (address-connect_sid_uid c sid uid h.inv r u) ∙ h.listed u;
        nowhere = λ s e. ground (arith, h.nowhere s);
      }

  call-Holds : (call : Call) → Allowed call t → Holds (on_mgr call c) (on_table call t)
  call-Holds (adds_sid sid) a = add_sid-Holds sid
  call-Holds (adds_uid uid) a = add_uid-Holds uid a
  call-Holds (dels_sid sid) a = del_sid-Holds sid
  call-Holds (dels_uid uid) a = del_uid-Holds uid a
  call-Holds (connects sid uid) a = connect-Holds sid uid a

-- After any sequence of the calls that add and delete connections and users and connect them, with
-- no uid 0 and each connection connected only to a registered user, the manager is consistent, and
-- it knows the connections, their users and the registered users of the table that the same calls
-- make.
pub conn_mgr-refines : {c : ConnMgr} {t : Table} → Reaches c t → Holds c t
conn_mgr-refines started = init-Holds
conn_mgr-refines (later call r a) = call-Holds _ _ (conn_mgr-refines r) call a
