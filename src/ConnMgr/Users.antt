-- ===== src/ConnMgr/Users.antt =====
-- Users come and go: `conn_mgr_add_uid` and `conn_mgr_del_uid`.
use acos_chat.Base.{
  ℕ, ◌≡◌, ◌≢◌, refl, ap, ◌∙◌, inl, inr, false, not, ◌&&◌, List, [], ◌∷◌, if◌then◌else◌, ◌==◌, arith,
  Bool-cases, if_both,
}
use acos_chat.TsMap.Spec.{Entry, has, get}
use acos_chat.TsMap.Reference.{get_absent}
use acos_chat.TsMap.Ops.{TsMap}
use acos_chat.TsMap.Ops
use acos_chat.TsMap.Laws.{view, fold_entries}
use acos_chat.TsMap.Laws
use acos_chat.ConnMgr.{ConnMgr, add_uid, del_uid, del_uid_helper}
use acos_chat.ConnMgr.Inv.{
  Inv, IsLive, known, owner, address, init-IsLive, has-init, insert-IsLive, erase-IsLive,
  has-insert, get-insert, has-erase_key, get-erase_key,
}

module _ (c : ConnMgr) (uid : ℕ) (i : Inv c) where
  pub add_address :
      (u : ℕ)
      → address (add_uid c uid) u ≡ (
          if uid == u
          then (if has uid (view c.uid_to_sid) then address c u else c.next)
          else address c u)
  unfolding add_uid
  add_address u = get-insert c.uid_to_sid i.uids u uid c.next

  -- A new user has the new, empty map.
  add_maps :
      (p : ℕ)
      → (add_uid c uid).maps p ≡ (
          if c.next == p
          then (if has uid (view c.uid_to_sid) then (Ops.destroy Ops.init).0 else Ops.init)
          else c.maps p)
  unfolding add_uid
  add_maps p = ground (arith, Laws.insert_result c.uid_to_sid i.uids.valid uid c.next i.uids.live)

  add_session :
      (u : ℕ)
      → (add_uid c uid).maps (address (add_uid c uid) u) ≡ (
          if has uid (view c.uid_to_sid)
          then c.maps (address c u)
          else (if uid == u then Ops.init else c.maps (address c u)))
  add_session u = add_maps (address (add_uid c uid) u) ∙ ground (arith, add_address u, i.fresh u)

  add-IsLive :
      (u : ℕ)
      → address (add_uid c uid) u ≢ 0
      → IsLive ((add_uid c uid).maps (address (add_uid c uid) u))
  add-IsLive u n = elim (Bool-cases (address c u == 0)) [
    | inl new ↦
        let fact : (add_uid c uid).maps (address (add_uid c uid) u) ≡ Ops.init =
          add_session u ∙ ground (arith, add_address u, i.registered u) in
        rw fact init-IsLive
    | inr old ↦ rw (add_session u) (
        if_both IsLive _ (i.sessions u (ground arith))
          (if_both IsLive _ init-IsLive (i.sessions u (ground arith))))
  ]

  add_agree :
      uid ≢ 0
      → (u s : ℕ) → address (add_uid c uid) u ≢ 0
      → has s (view ((add_uid c uid).maps (address (add_uid c uid) u)))
        ≡ (known c s && (owner c s == u))
  add_agree nz u s n =
      ap (λ m. has s (view m)) (add_session u)
      ∙ ground (
        arith,
        add_address u,
        i.agree u s,
        has-init s,
        i.owned s,
        get_absent u (view c.uid_to_sid),
        i.nobody,
      )

  -- `conn_mgr_add_uid` of a uid that is not 0 leaves a consistent manager consistent, whether the
  -- user is known or new.
  pub add_uid-Inv : uid ≢ 0 → Inv (add_uid c uid)
  unfolding add_uid
  add_uid-Inv nz = record {
    sids = i.sids;
    uids = insert-IsLive c.uid_to_sid i.uids uid c.next;
    sessions = add-IsLive;
    fresh = λ u. ground (arith, add_address u, i.fresh u);
    apart =
        λ u w n e. ground (arith, add_address u, add_address w, i.apart u w, i.fresh u, i.fresh w);
    registered = λ u h. ground (
      arith,
      add_address u,
      has-insert c.uid_to_sid i.uids u uid c.next,
      i.registered u,
      i.fresh u,
    );
    nobody = ground (arith, add_address 0, i.nobody);
    owned = λ s n. ground (arith, add_address (owner c s), i.owned s, i.fresh 0);
    agree = add_agree nz;
  }

-- The connections of a list are erased one after the other.
erases-IsLive : (es : List Entry) (m : TsMap) → IsLive m → IsLive (fold_entries del_uid_helper es m)
erases-IsLive [] m h = h
erases-IsLive ((k, v) ∷ es) m h = erases-IsLive es (Ops.erase_key m k).0 (erase-IsLive m h k)

erases-has :
    (es : List Entry) (m : TsMap) (s : ℕ)
    → IsLive m
    → has s (view (fold_entries del_uid_helper es m)) ≡ (if has s es then false else has s (view m))
unfolding has
erases-has [] m s h = refl
erases-has ((k, v) ∷ es) m s h =
    erases-has es (Ops.erase_key m k).0 s (erase-IsLive m h k)
    ∙ ground (arith, has-erase_key m h s k)

erases-get :
    (es : List Entry) (m : TsMap) (s : ℕ)
    → IsLive m
    → get s (view (fold_entries del_uid_helper es m)) ≡ (if has s es then 0 else get s (view m))
unfolding has
erases-get [] m s h = refl
erases-get ((k, v) ∷ es) m s h =
    erases-get es (Ops.erase_key m k).0 s (erase-IsLive m h k)
    ∙ ground (arith, get-erase_key m h s k)

module _ (c : ConnMgr) (uid : ℕ) (i : Inv c) where
  removed : (Ops.erase_key c.uid_to_sid uid).1 ≡ address c uid
  removed = Laws.erase_key_result c.uid_to_sid i.uids.valid uid i.uids.live

  pub del_address : (u : ℕ) → address (del_uid c uid) u ≡ (if uid == u then 0 else address c u)
  unfolding del_uid
  del_address u = get-erase_key c.uid_to_sid i.uids u uid

  del_sids : (del_uid c uid).sid_to_uid ≡ (
      if address c uid == 0
      then c.sid_to_uid
      else fold_entries del_uid_helper (view (c.maps (address c uid))) c.sid_to_uid)
  unfolding del_uid
  del_sids = rw removed (
      ap (λ m. if address c uid == 0 then c.sid_to_uid else m)
        (Laws.forall_entries-fold (c.maps (address c uid)) del_uid_helper c.sid_to_uid))

  del_sids-IsLive : IsLive (del_uid c uid).sid_to_uid
  del_sids-IsLive = rw del_sids (
      if_both IsLive (address c uid == 0) i.sids
        (erases-IsLive (view (c.maps (address c uid))) c.sid_to_uid i.sids))

  -- In a consistent manager, after `conn_mgr_del_uid` of a uid that is not 0, exactly the
  -- connections of that user are forgotten, and all other connections keep their owner.
  pub del_uid_effect :
      uid ≢ 0
      → (s : ℕ)
      → (known (del_uid c uid) s ≡ (known c s && not (owner c s == uid)))
        × (owner (del_uid c uid) s ≡ (if owner c s == uid then 0 else owner c s))
  del_uid_effect nz s = elim (Bool-cases (address c uid == 0)) [
    | inl unlisted ↦ rw (del_sids, unlisted) (ground (arith, i.owned s), ground (arith, i.owned s))
    | inr listed ↦
        rw (del_sids, listed)
          (
            erases-has (view (c.maps (address c uid))) c.sid_to_uid s i.sids
                ∙ ground (arith, i.agree uid s),
            erases-get (view (c.maps (address c uid))) c.sid_to_uid s i.sids
                ∙ ground (arith, i.agree uid s, get_absent s (view c.sid_to_uid)),
          )
  ]

  del_session :
      (u : ℕ)
      → address (del_uid c uid) u ≢ 0
      → (del_uid c uid).maps (address (del_uid c uid) u) ≡ c.maps (address c u)
  unfolding del_uid
  del_session u n = ground (arith, removed, del_address u, i.apart u uid)

  -- `conn_mgr_del_uid` of a uid that is not 0 leaves a consistent manager consistent.
  pub del_uid-Inv : uid ≢ 0 → Inv (del_uid c uid)
  unfolding del_uid
  del_uid-Inv nz = record {
    sids = del_sids-IsLive;
    uids = erase-IsLive c.uid_to_sid i.uids uid;
    sessions = λ u n. rw (del_session u n) (i.sessions u (ground (arith, del_address u)));
    fresh = λ u. ground (arith, del_address u, i.fresh u);
    apart = λ u w n e. ground (arith, del_address u, del_address w, i.apart u w);
    registered = λ u h.
        ground (arith, del_address u, has-erase_key c.uid_to_sid i.uids u uid, i.registered u);
    nobody = ground (arith, del_address 0, i.nobody);
    owned = λ s n. ground (arith, del_uid_effect nz s, del_address (owner c s), i.owned s);
    agree = λ u s n.
        ap (λ m. has s (view m)) (del_session u n)
        ∙ ground (arith, i.agree u s, del_address u, del_uid_effect nz s);
  }
