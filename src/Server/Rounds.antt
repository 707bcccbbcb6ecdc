-- ===== src/Server/Rounds.antt =====
-- `listener_init`, `push_back_conn` and `listener_thread` of lab_2/chat/src/server/listener.c: the polling of
-- all connections and the events of the listener's loop. `polling_conns` is the list of its elements. What
-- `poll` and `accept` answer are arguments, the socket of the server is not among the clients, and the
-- answer is `none` where the code reads through NULL.
pub mod Buffers
pub mod Sound
pub mod Written
pub mod Sockets
pub mod Keeps
pub mod Events
use acos_chat.Base.{
  ℕ, ◌+◌, Bool, true, false, List, [], ◌∷◌, ◌++◌, Option, none, some, map, ◌>>=◌, ◌==◌,
  if◌then◌else◌,
}
use acos_chat.TsMap.Ops
use acos_chat.EventLoop.{EventLoop, Did, handled, deleted, event_loop_init, event_loop_iteration}
use acos_chat.Server.{Effect}
use acos_chat.Server.Database.{Database}
use acos_chat.Server.Close.{ListenerData, close_connection, accept_connection}
use acos_chat.Server.Listener.{
  Connection, Verdict, waits, delivers, closed, faults, new_connection, process_connection,
}

abbrev pub close_connection_event_type : ℕ
close_connection_event_type = 3

-- The number of the function `close_connection_event_handler`.
abbrev pub close_connection_event_handler : ℕ
close_connection_event_handler = 103

-- What `poll` reports of a socket: POLLHUP or POLLERR; POLLIN.
pub record Revents : Type 0 where
  pub broken : Bool
  pub readable : Bool

-- The answer of `poll`: -1, 0, or more with the reports of the sockets.
pub data Polled : Type 0 where
  failed : Polled
  quiet : Polled
  ready : Bool → (ℕ → Revents) → Polled

-- The listener with the connections at their addresses, the next address, its loop, whose events are sockets
-- to close, and the sockets, which `W` stands for.
pub record Listener (W : Type 0) (D : Type 0) : Type 0 where
  pub listener : ListenerData D
  pub conns : ℕ → Connection
  pub next : ℕ
  pub event_loop : EventLoop ℕ
  pub world : W

-- What the other threads get: a broadcast, or a connection with a whole message, by its address.
pub data Output : Type 0 where
  does : Effect → Output
  input_msg : ℕ → Output

abbrev pub write_conn : (ℕ → Connection) → ℕ → Connection → ℕ → Connection
write_conn conns address conn p = if address == p then conn else conns p

-- The loop that `listener_init` makes.
unfoldable pub init_loop : EventLoop ℕ
init_loop =
    let el : EventLoop ℕ = event_loop_init in
    record el {
      handlers =
          (Ops.insert el.handlers close_connection_event_type close_connection_event_handler).0;
    }

unfoldable pub push_back_conn : (ℕ → Connection) → ℕ → ℕ → List ℕ → List ℕ
push_back_conn conns key val v = if (conns val).in_worker then v else v ++ (conns val).sockid ∷ []

module _ {W D : Type 0} where
  -- The sockets from `arr[1]` on.
  unfoldable pub polling_conns : Listener W D → List ℕ
  polling_conns l = Ops.forall_entries l.listener.clients (push_back_conn l.conns) []

  unfoldable pub accept_ready : Option ℕ → Listener W D → Listener W D
  accept_ready none l = l
  accept_ready (some sockid) l = record l {
    listener = accept_connection sockid l.next l.listener;
    conns = write_conn l.conns l.next (new_connection sockid);
    next = l.next + 1;
  }

  -- The lookup in the clients keeps their entries, and moves the tree.
  unfoldable pub look_up : ℕ → Listener W D → Listener W D
  look_up sockid l = record l {
    listener = record {
      clients = (Ops.find_val l.listener.clients sockid).0;
      shared = l.listener.shared;
    };
  }

  module _ (api : Database D) (recv : W → ℕ → ℕ → W × List ℕ) (now : ℕ) where
    unfoldable pub closing : ℕ → Listener W D → Option (Listener W D × List Output)
    closing sockid l = do
      gone ← close_connection api now sockid l.listener
      some (record l { listener = gone.0 }, map does gone.1)

    -- The end of `process_connection`, for the connection at an address.
    unfoldable pub settle : ℕ → ℕ → W × Verdict → Listener W D → Option (Listener W D × List Output)
    settle sockid address (w, waits c) l =
        some (record l { conns = write_conn l.conns address c; world = w }, [])
    settle sockid address (w, delivers c) l =
        some (record l { conns = write_conn l.conns address c; world = w }, input_msg address ∷ [])
    settle sockid address (w, closed) l = closing sockid (record l { world = w })
    settle sockid address (w, faults) l = none

    unfoldable pub process_ready : ℕ → Listener W D → Option (Listener W D × List Output)
    process_ready sockid l =
        let address = (Ops.find_val l.listener.clients sockid).1 in
        if address == 0
        then none
        else settle sockid address
            (process_connection (λ w n. recv w sockid n) l.world (l.conns address))
            (look_up sockid l)

    unfoldable pub handle_socket : Revents → ℕ → Listener W D → Option (Listener W D × List Output)
    handle_socket revents sockid l =
        if revents.broken
        then closing sockid l
        else if revents.readable
        then process_ready sockid l
        else some (l, [])

    -- The loop over `arr`.
    unfoldable pub handle_sockets :
        (ℕ → Revents) → List ℕ → Listener W D → Option (Listener W D × List Output)
    handle_sockets revents [] l = some (l, [])
    handle_sockets revents (sockid ∷ sockids) l = do
      first ← handle_socket (revents sockid) sockid l
      rest ← handle_sockets revents sockids first.0
      some (rest.0, first.1 ++ rest.1)

    -- `if (res > 0)`; the server's own socket comes first.
    unfoldable pub after_poll :
        Bool → (ℕ → Revents) → Option ℕ → Listener W D → Option (Listener W D × List Output)
    after_poll incoming revents accepted l =
        handle_sockets revents (polling_conns l) (if incoming then accept_ready accepted l else l)

    -- What the handlers of the listener's loop do; a deleter only frees.
    unfoldable pub perform : List (Did ℕ) → Listener W D → Option (Listener W D × List Output)
    perform [] l = some (l, [])
    perform (handled f evt ∷ rest) l = do
      first ← if f == close_connection_event_handler then closing evt.payload l else none
      others ← perform rest first.0
      some (others.0, first.1 ++ others.1)
    perform (deleted f evt ∷ rest) l = perform rest l

    -- The listener, what it did, and whether it goes on.
    unfoldable pub iterate : Listener W D → Option (Listener W D × List Output × Bool)
    iterate l = do
      once ← event_loop_iteration l.event_loop
      after ← perform once.1 (record l { event_loop = once.0 })
      some (after.0, after.1, once.2)

    -- A round of the loop of `listener_thread`.
    unfoldable pub round :
        Polled → Option ℕ → Listener W D → Option (Listener W D × List Output × Bool)
    round failed accepted l = some (l, [], false)
    round quiet accepted l = iterate l
    round (ready incoming revents) accepted l = do
      polled ← after_poll incoming revents accepted l
      after ← iterate polled.0
      some (after.0, polled.1 ++ after.1, after.2)
