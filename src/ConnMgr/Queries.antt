-- ===== src/ConnMgr/Queries.antt =====
-- The calls that only ask move nodes of the trees, and keep the manager consistent; what
-- `conn_mgr_del_sid` does.
use acos_chat.Base.{ℕ, ◌≡◌, ◌≢◌, refl, false, if◌then◌else◌, ◌==◌, arith}
use acos_chat.TsMap.Ops
use acos_chat.TsMap.Laws.{view}
use acos_chat.TsMap.Laws
use acos_chat.ConnMgr.{ConnMgr, add_uid, del_sid, get_uid, number_of_sessions, forall_uid}
use acos_chat.ConnMgr.Inv.{Inv, IsLive, known, owner, address, find-IsLive, get-insert}
use acos_chat.ConnMgr.Preserve.{detach-Inv, known-detach, owner-detach}

-- The same entries in trees of another shape.
module _ (c : ConnMgr) (i : Inv c) (s u : Ops.TsMap) where
  reshaped : ConnMgr
  reshaped = record c { sid_to_uid = s; uid_to_sid = u }

  reshaped-Inv :
      IsLive s → IsLive u → view s ≡ view c.sid_to_uid → view u ≡ view c.uid_to_sid → Inv reshaped
  unfolding reshaped
  reshaped-Inv ls lu es eu = record {
    sids = ls;
    uids = lu;
    sessions = λ w. rw eu (i.sessions w);
    fresh = λ w. rw eu (i.fresh w);
    apart = λ w x. rw eu (i.apart w x);
    registered = λ w. rw eu (i.registered w);
    nobody = rw eu i.nobody;
    owned = λ q. rw (es, eu) (i.owned q);
    agree = λ w q. rw (es, eu) (i.agree w q);
  }

module _ (c : ConnMgr) (i : Inv c) where
  pub get_uid-Inv : (sid : ℕ) → Inv (get_uid c sid).0
  unfolding get_uid reshaped
  get_uid-Inv sid =
      reshaped-Inv c i (Ops.find_val c.sid_to_uid sid).0 c.uid_to_sid
        (find-IsLive c.sid_to_uid i.sids sid) i.uids
        (Laws.view-find_val c.sid_to_uid i.sids.valid sid) refl

  asked-Inv : (uid : ℕ) → Inv (record c { uid_to_sid = (Ops.find_val c.uid_to_sid uid).0 })
  unfolding reshaped
  asked-Inv uid =
      reshaped-Inv c i c.sid_to_uid (Ops.find_val c.uid_to_sid uid).0 i.sids
        (find-IsLive c.uid_to_sid i.uids uid) refl
        (Laws.view-find_val c.uid_to_sid i.uids.valid uid)

  pub number_of_sessions-Inv : (uid : ℕ) → Inv (number_of_sessions c uid).0
  unfolding number_of_sessions
  number_of_sessions-Inv uid = asked-Inv uid

  pub forall_uid-Inv {ℓ} :
      {S : Type ℓ} (uid : ℕ) (callback : ℕ → ℕ → S → S) (s : S)
      → Inv (forall_uid c uid callback s).0
  unfolding forall_uid
  forall_uid-Inv uid callback s = asked-Inv uid

  -- `conn_mgr_del_sid` leaves a consistent manager consistent.
  pub del_sid-Inv : (sid : ℕ) → Inv (del_sid c sid)
  unfolding del_sid
  del_sid-Inv sid = detach-Inv c sid i

  -- In a consistent manager, after `conn_mgr_del_sid` the connection is unknown and belongs to
  -- nobody, and the others are as they were.
  pub del_sid_effect :
      (sid s : ℕ)
      → (known (del_sid c sid) s ≡ (if sid == s then false else known c s))
        × (owner (del_sid c sid) s ≡ (if sid == s then 0 else owner c s))
  unfolding del_sid
  del_sid_effect sid s = (known-detach c sid i s, owner-detach c sid i s)

  pub add_uid_registers : (uid : ℕ) → address (add_uid c uid) uid ≢ 0
  unfolding add_uid
  add_uid_registers uid h = ground (
    arith,
    h,
    Laws.view-insert c.uid_to_sid i.uids.valid uid c.next i.uids.live,
    i.fresh 0,
    i.registered uid,
    get-insert c.uid_to_sid i.uids uid uid c.next,
  )
