-- ===== src/ConnMgr.antt =====
-- lab_2/chat/src/server/conn_mgr.c: which connections (socket numbers, `sid`) belong to which user
-- (`uid`, 0 for nobody). The session maps that `conn_mgr_add_uid` allocates are cells of a store,
-- which the values of `uid_to_sid` point to. Socket numbers and uids are non-negative `int`s, so the
-- casts to and from `void *` keep them. A call holds the manager's mutex throughout.
pub mod Inv
pub mod Preserve
pub mod Connect
pub mod Users
pub mod Sessions
pub mod Queries
pub mod Refines
use acos_chat.Base.{ℕ, ◌+◌, Bool, true, false, List, [], ◌∷◌, if◌then◌else◌, ◌==◌}
use acos_chat.TsMap.{is_null, get_size}
use acos_chat.TsMap.Ops.{TsMap}
use acos_chat.TsMap.Ops

pub record ConnMgr : Type 0 where
  pub sid_to_uid : TsMap
  pub uid_to_sid : TsMap
  pub maps : ℕ → TsMap
  pub next : ℕ

abbrev pub update : (ℕ → TsMap) → ℕ → TsMap → ℕ → TsMap
update maps p m q = if p == q then m else maps q

unfoldable pub init : ConnMgr
init = record { sid_to_uid = Ops.init; uid_to_sid = Ops.init; maps = λ _. Ops.init; next = 1 }

unfoldable pub add_sid : ConnMgr → ℕ → ConnMgr
add_sid c sid = record c { sid_to_uid = (Ops.insert c.sid_to_uid sid 0).0 }

-- The new map is at address `next`. Where the uid is known it is destroyed and freed at once, and
-- nothing points to it.
unfoldable pub add_uid : ConnMgr → ℕ → ConnMgr
add_uid c uid = record c {
  uid_to_sid = (Ops.insert c.uid_to_sid uid c.next).0;
  maps =
      update c.maps c.next
        (if (Ops.insert c.uid_to_sid uid c.next).1 then Ops.init else (Ops.destroy Ops.init).0);
  next = c.next + 1;
}

-- The lines that `conn_mgr_del_sid` and `conn_mgr_connect_sid_uid` share.
unfoldable pub detach : ConnMgr → ℕ → ConnMgr
detach c sid =
    let uid = (Ops.erase_key c.sid_to_uid sid).1 in
    let m = (Ops.find_val c.uid_to_sid uid).1 in
    record c {
      sid_to_uid = (Ops.erase_key c.sid_to_uid sid).0;
      uid_to_sid = (Ops.find_val c.uid_to_sid uid).0;
      maps = if m == 0 then c.maps else update c.maps m (Ops.erase_key (c.maps m) sid).0;
    }

-- The rest of `conn_mgr_connect_sid_uid`.
unfoldable pub attach : ConnMgr → ℕ → ℕ → ConnMgr
attach c sid uid =
    let m = (Ops.find_val c.uid_to_sid uid).1 in
    record c {
      sid_to_uid = (Ops.insert c.sid_to_uid sid uid).0;
      uid_to_sid = (Ops.find_val c.uid_to_sid uid).0;
      maps = if m == 0 then c.maps else update c.maps m (Ops.insert (c.maps m) sid 0).0;
    }

unfoldable pub del_sid : ConnMgr → ℕ → ConnMgr
del_sid c sid = detach c sid

unfoldable pub connect_sid_uid : ConnMgr → ℕ → ℕ → ConnMgr
connect_sid_uid c sid uid =
    let looked = record c { sid_to_uid = (Ops.has_val c.sid_to_uid sid).0 } in
    if (Ops.has_val c.sid_to_uid sid).1 then attach (detach looked sid) sid uid else looked

-- `del_uid_helper`, called on each entry of the session map.
abbrev pub del_uid_helper : ℕ → ℕ → TsMap → TsMap
del_uid_helper key val sids = (Ops.erase_key sids key).0

unfoldable pub del_uid : ConnMgr → ℕ → ConnMgr
del_uid c uid =
    let m = (Ops.erase_key c.uid_to_sid uid).1 in
    record c {
      sid_to_uid =
          if m == 0
          then c.sid_to_uid
          else Ops.forall_entries (c.maps m) del_uid_helper c.sid_to_uid;
      uid_to_sid = (Ops.erase_key c.uid_to_sid uid).0;
      maps = if m == 0 then c.maps else update c.maps m (Ops.destroy (c.maps m)).0;
    }

unfoldable pub get_uid : ConnMgr → ℕ → ConnMgr × ℕ
get_uid c sid =
    (record c { sid_to_uid = (Ops.find_val c.sid_to_uid sid).0 }, (Ops.find_val c.sid_to_uid sid).1)

unfoldable pub forall_uid {ℓ} : {S : Type ℓ} → ConnMgr → ℕ → (ℕ → ℕ → S → S) → S → ConnMgr × S
forall_uid c uid callback s =
    let m = (Ops.find_val c.uid_to_sid uid).1 in
    (
      record c { uid_to_sid = (Ops.find_val c.uid_to_sid uid).0 },
      if m == 0 then s else Ops.forall_entries (c.maps m) callback s,
    )

unfoldable pub number_of_sessions : ConnMgr → ℕ → ConnMgr × ℕ
number_of_sessions c uid =
    let m = (Ops.find_val c.uid_to_sid uid).1 in
    (
      record c { uid_to_sid = (Ops.find_val c.uid_to_sid uid).0 },
      if m == 0 then 0 else if is_null (c.maps m).root then 0 else get_size (c.maps m).root,
    )

-- `map_destroyer` on each value that `ts_map_destroy` hands over.
unfoldable pub destroy_maps : List ℕ → (ℕ → TsMap) → ℕ → TsMap
destroy_maps [] maps = maps
destroy_maps (m ∷ ms) maps = destroy_maps ms (update maps m (Ops.destroy (maps m)).0)

unfoldable pub destroy_conn_mgr : ConnMgr → ConnMgr
destroy_conn_mgr c = record c {
  sid_to_uid = (Ops.destroy c.sid_to_uid).0;
  uid_to_sid = (Ops.destroy c.uid_to_sid).0;
  maps = destroy_maps (Ops.destroy c.uid_to_sid).1 c.maps;
}
