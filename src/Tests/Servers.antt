-- ===== src/Tests/Servers.antt =====
-- Runs of the server as a whole: its start, and rounds of its listener.
use acos_chat.Base.{
  ℕ, ◌≡◌, ◌≢◌, refl, ap, ◌∙◌, true, false, not, List, [], ◌∷◌, none, some, codes, ◌==◌, arith,
}
use acos_chat.TsMap.{add, split, cut}
use acos_chat.TsMap.Spec.{get}
use acos_chat.TsMap.Ops
use acos_chat.TsMap.Laws.{view}
use acos_chat.ConnMgr
use acos_chat.ConnMgr.Inv.{Inv, known, owner, address}
use acos_chat.EventLoop.{
  Event, EventLoop, send_event, event_loop_init, event_loop_iteration, take_event,
}
use acos_chat.TsQueue.{pop, init}
use acos_chat.EventLoop.Dispatch.{Waiting, its_deleter, send_event_lem, event_loop_init-Waiting}
use acos_chat.Server.Listener.{new_connection}
use acos_chat.Server.Process.Users.{is_in}
use acos_chat.Server.Rounds.{
  Listener, Output, Revents, ready, init_loop, accept_ready, after_poll, polling_conns,
  handle_sockets, iterate, perform, round,
}
use acos_chat.Server.Rounds.Sound.{client, conn_of, IsSound, with_loop-IsSound}
use acos_chat.Server.Rounds.Written.{with_conn, with_conn-IsSound}
use acos_chat.Server.Rounds.Events.{round_lem, round_twice}
use acos_chat.Server.Start.{prepare_conn_mgr}
use acos_chat.Server.Start.Users.{prepare_conn_mgr_lem}
use acos_chat.Server.Close.{accept_connection}
use acos_chat.TsMap.Laws
use acos_chat.Server.System.{start, Reach, begins, later, polls}
use acos_chat.Server.System.Keeps.{reach-IsSound, server-IsSound}
use acos_chat.Tests.Handlers.{api}

-- The first column is a text of one character, and there are the users 1 and 7.
abbrev atoi : List ℕ → ℕ
atoi [] = 0
atoi (c ∷ rest) = c

abbrev rows : List (List (List ℕ))
rows = ((1 ∷ []) ∷ []) ∷ ((7 ∷ []) ∷ codes "u" ∷ []) ∷ []

prepare_conn_mgr_lem_example :
    Inv (prepare_conn_mgr atoi rows ConnMgr.init)
    × ((s : ℕ)
        → (known (prepare_conn_mgr atoi rows ConnMgr.init) s ≡ false)
          × (owner (prepare_conn_mgr atoi rows ConnMgr.init) s ≡ 0))
    × ((u : ℕ)
        → not (address (prepare_conn_mgr atoi rows ConnMgr.init) u == 0) ≡ is_in u (1 ∷ 7 ∷ []))
prepare_conn_mgr_lem_example = prepare_conn_mgr_lem atoi rows (omega arith, (omega arith, tt))

-- Sockets that give nothing.
abbrev recv : ℕ → ℕ → ℕ → ℕ × List ℕ
recv w sockid n = (w, [])

abbrev begun : Listener ℕ ℕ
begun = start atoi rows 0 0

begun-Reach : Reach api recv begun
begun-Reach = begins atoi rows 0 0 (omega arith, (omega arith, tt))

-- Nothing is ready, or what the sockets in the list have hung up.
abbrev silent : ℕ → Revents
silent s = record { broken = false; readable = false }

abbrev hung_up : ℕ → Revents
hung_up s = record { broken = true; readable = false }

-- A round that accepts the socket 4.
abbrev joined : Listener ℕ ℕ
joined = accept_ready (some 4) begun

first_round : round api recv 3 (ready true silent) (some 4) begun ≡ some (joined, [], true)
unfolding round after_poll polling_conns handle_sockets accept_ready iterate perform
    event_loop_iteration take_event pop start init_loop event_loop_init init Ops.forall_entries
    Ops.init
first_round = refl

joined-Reach : Reach api recv joined
unfolding start get Ops.init
joined-Reach =
    later begun-Reach (polls 3 (ready true silent) (some 4) joined [] true refl first_round)

server-IsSound_example :
    IsSound joined
    × ((r : Listener ℕ ℕ × List Output) × (after_poll api recv 3 true hung_up (some 6) joined
          ≡ some r))
unfolding start accept_ready accept_connection get Ops.insert Ops.init add split cut
server-IsSound_example =
    server-IsSound api recv (λ w s n. omega arith) (λ d login passwd. cc) 3 true hung_up (some 6)
      joined-Reach refl

joined-IsSound : IsSound joined
joined-IsSound = reach-IsSound api recv (λ w s n. omega arith) (λ d login passwd. cc) joined-Reach

-- The listener's loop with the event to close the socket.
abbrev event : Event ℕ
event = record { kind = 3; deleter = 0; payload = 4 }

init_loop-Waiting : Waiting init_loop []
unfolding init_loop
init_loop-Waiting =
    let w = event_loop_init-Waiting {P = ℕ} in
    record {
      queue = w.queue;
      handlers = Laws.insert-IsValid (event_loop_init {P = ℕ}).handlers w.handlers 3 103;
      deleters = w.deleters;
    }

its_handler : get 3 (view init_loop.handlers) ≡ 103
unfolding init_loop event_loop_init get Ops.insert Ops.init add split cut
its_handler = refl

sent :
    (el : EventLoop ℕ) × (send_event init_loop event ≡ some el)
    × Waiting el (record event { deleter = its_deleter init_loop event } ∷ [])
    × (view el.handlers ≡ view init_loop.handlers)
    × (view el.deleters ≡ view init_loop.deleters)
sent = send_event_lem init_loop event [] init_loop-Waiting

abbrev leaving : Listener ℕ ℕ
leaving = record joined { event_loop = sent.0 }

leaving-IsSound : IsSound leaving
leaving-IsSound = with_loop-IsSound joined sent.0 joined-IsSound

leaving_there : client leaving 4 ≢ 0
unfolding start accept_ready accept_connection get Ops.insert Ops.init add split cut
leaving_there = omega arith

-- With its message at the workers.
abbrev busy : Listener ℕ ℕ
busy = with_conn leaving 4 (record (conn_of leaving 4) { in_worker = true })

busy-IsSound : IsSound busy
busy-IsSound =
    let reads = leaving-IsSound.reads 4 leaving_there in
    with_conn-IsSound leaving leaving-IsSound 4 _ leaving_there
      (record { header = reads.header; whole = reads.whole })
      (leaving-IsSound.named 4 leaving_there)

busy_worker : (conn_of busy 4).in_worker ≡ true
busy_worker = ground arith

handler_there : get 3 (view sent.0.handlers) ≡ 103
handler_there = ap (get 3) sent.3 ∙ its_handler

free_worker : (conn_of leaving 4).in_worker ≡ false
unfolding start accept_ready accept_connection get Ops.insert Ops.init add split cut new_connection
free_worker = refl

round_lem_example :
    (after : Listener ℕ ℕ) × (outputs : List Output) × (round api recv 3
        (ready false silent)
        none
        busy
      ≡ some (after, outputs, true))
    × IsSound after
    × (client after 4 ≡ 0)
    × ((q : ℕ)
        → q ≢ 4
        → client busy q ≢ 0
        → (conn_of busy q).in_worker ≡ true
        → (client after q ≡ client busy q) × (conn_of after q ≡ conn_of busy q))
    × ((q : ℕ)
        → q ≢ 4
        → client busy q ≢ 0
        → (conn_of busy q).in_worker ≡ false
        → (silent q).broken ≡ true
        → client after q ≡ 0)
round_lem_example =
    round_lem api recv 3 (λ w s n. omega arith) false silent none busy busy-IsSound tt
      (record event { deleter = its_deleter init_loop event }) [] sent.2 refl handler_there
      leaving_there busy_worker

round_twice_example : round api recv 3 (ready false hung_up) none leaving ≡ none
round_twice_example =
    round_twice api recv 3 (λ w s n. omega arith) false hung_up none leaving leaving-IsSound tt
      (record event { deleter = its_deleter init_loop event }) [] sent.2 refl handler_there
      leaving_there free_worker refl
