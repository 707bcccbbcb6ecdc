-- ===== src/Tests/Managers.antt =====
-- Runs of lab_2/chat/src/server/conn_mgr.c.
use acos_chat.Base.{refl, arith}
use acos_chat.ConnMgr.{ConnMgr, init, add_sid, add_uid, connect_sid_uid, del_uid}
use acos_chat.ConnMgr.Inv.{Inv}
use acos_chat.ConnMgr.Refines.{
  Table, empty, adds_sid, adds_uid, dels_uid, connects, on_table, Reaches, started, later, Holds,
  conn_mgr-refines,
}
use acos_chat.ConnMgr.Preserve.{init-Inv, add_sid-Inv}
use acos_chat.ConnMgr.Connect.{connect_sid_uid-Inv}
use acos_chat.ConnMgr.Users.{add_uid-Inv}
use acos_chat.ConnMgr.Queries.{add_uid_registers}

-- The connections 4 and 5, and the user 7.
abbrev accepted : ConnMgr
accepted = add_sid (add_sid init 4) 5

accepted-Inv : Inv accepted
accepted-Inv = add_sid-Inv (add_sid init 4) 5 (add_sid-Inv init 4 init-Inv)

abbrev named : ConnMgr
named = add_uid accepted 7

named-Inv : Inv named
named-Inv = add_uid-Inv accepted 7 accepted-Inv (omega arith)

-- The connection 4 is the user's.
abbrev pub joined : ConnMgr
joined = connect_sid_uid named 4 7

pub joined-Inv : Inv joined
joined-Inv = connect_sid_uid-Inv named 4 7 named-Inv (add_uid_registers accepted accepted-Inv 7)

-- The connection 4 is accepted and connected to the user 7, who then leaves.
abbrev left : Table
left =
    on_table (dels_uid 7)
      (on_table (connects 4 7) (on_table (adds_uid 7) (on_table (adds_sid 4) empty)))

left-Reaches : Reaches (del_uid (connect_sid_uid (add_uid (add_sid init 4) 7) 4 7) 7) left
left-Reaches =
    later (dels_uid 7)
      (later (connects 4 7) (later (adds_uid 7) (later (adds_sid 4) started tt) (omega arith)) refl)
      (omega arith)

conn_mgr-refines_example : Holds (del_uid (connect_sid_uid (add_uid (add_sid init 4) 7) 4 7) 7) left
conn_mgr-refines_example = conn_mgr-refines left-Reaches
