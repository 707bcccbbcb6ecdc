-- ===== src/EventLoop.antt =====
-- lib/event_loop/src/event_loop.c. An event is its type and what the handler reads of it, a handler
-- and a deleter the number by which its function is known, 0 for NULL. The result is `none` where the
-- queue reads through a pointer to no node.
pub mod Dispatch
pub mod Run
use acos_chat.Base.{
  ℕ, zero, suc, map, ◌++◌, Bool, true, false, List, [], ◌∷◌, Option, none, some, if◌then◌else◌,
  ◌==◌, ◌>>=◌,
}
use acos_chat.TsMap.Ops.{TsMap}
use acos_chat.TsMap.Ops
use acos_chat.TsQueue.{TsQueue, init, push, push_in_front, pop, destroy_loop}

-- `event_t`, with the payload `P` of the struct that begins with it.
pub record Event (P : Type 0) : Type 0 where
  pub kind : ℕ
  pub deleter : ℕ
  pub payload : P

-- `event_loop_t`.
pub record EventLoop (P : Type 0) : Type 0 where
  pub event_queue : TsQueue (Event P)
  pub handlers : TsMap
  pub deleters : TsMap

abbrev pub exit_event_type : ℕ
exit_event_type = 0

-- What an iteration does to an event: the calls of a handler and of a deleter.
pub data Did (P : Type 0) : Type 0 where
  handled : ℕ → Event P → Did P
  deleted : ℕ → Event P → Did P

-- What a handler sends to the loop that runs it, in order: by `send_event` or by `send_urgent_event`. What it
-- does beyond that is its own model's part, and so is its text: a function by the handler's number and the event.
pub data Sent (P : Type 0) : Type 0 where
  normal : Event P → Sent P
  urgent : Event P → Sent P

-- The number of the function `default_deleter`.
abbrev pub default_deleter : ℕ
default_deleter = 1

-- And of `exit_evt_deleter_stub`.
abbrev pub exit_evt_deleter_stub : ℕ
exit_evt_deleter_stub = 2

module _ {P : Type 0} where
  unfoldable pub event_loop_init : EventLoop P
  event_loop_init = record {
    event_queue = init;
    handlers = Ops.init;
    deleters = (Ops.insert Ops.init exit_event_type exit_evt_deleter_stub).0;
  }

  -- The event with the deleter that `send_event` finds for it.
  unfoldable pub with_deleter : EventLoop P → Event P → Event P
  with_deleter el evt =
      let deleter = (Ops.find_val el.deleters evt.kind).1 in
      record evt { deleter = if deleter == 0 then default_deleter else deleter }

  abbrev pub looked_up : EventLoop P → Event P → EventLoop P
  looked_up el evt = record el { deleters = (Ops.find_val el.deleters evt.kind).0 }

  unfoldable pub send_event : EventLoop P → Event P → Option (EventLoop P)
  send_event el evt = do
    pushed ← push el.event_queue (with_deleter el evt)
    some (record (looked_up el evt) { event_queue = pushed.0 })

  unfoldable pub send_urgent_event : EventLoop P → Event P → Option (EventLoop P)
  send_urgent_event el evt = do
    pushed ← push_in_front el.event_queue (with_deleter el evt)
    some (record (looked_up el evt) { event_queue = pushed.0 })

  -- The rest of an iteration, for an event that is not the end.
  unfoldable pub dispatch : EventLoop P → Event P → EventLoop P × List (Did P)
  dispatch el evt =
      let found = Ops.find_val el.handlers evt.kind in
      (
        record el { handlers = found.0 },
        if found.1 == 0
            then deleted evt.deleter evt ∷ []
            else handled found.1 evt ∷ deleted evt.deleter evt ∷ [],
      )

  unfoldable pub take_event : EventLoop P → Option (Event P) → EventLoop P × List (Did P) × Bool
  take_event el none = (el, [], true)
  take_event el (some evt) =
      if evt.kind == exit_event_type
      then (el, [], false)
      else ((dispatch el evt).0, (dispatch el evt).1, true)

  -- The loop after the iteration, what it did, and whether to go on.
  unfoldable pub event_loop_iteration : EventLoop P → Option (EventLoop P × List (Did P) × Bool)
  event_loop_iteration el = do
    popped ← pop el.event_queue
    some (take_event (record el { event_queue = popped.0 }) popped.1)

  unfoldable pub send_all : List (Sent P) → EventLoop P → Option (EventLoop P)
  send_all [] el = some el
  send_all (normal evt ∷ sends) el = do sent ← send_event el evt; send_all sends sent
  send_all (urgent evt ∷ sends) el = do sent ← send_urgent_event el evt; send_all sends sent

  abbrev pub and_then :
      (EventLoop P → Option (EventLoop P × List (Did P) × Bool))
      → EventLoop P × List (Did P) × Bool
      → Option (EventLoop P × List (Did P) × Bool)
  and_then next (el, did, false) = some (el, did, false)
  and_then next (el, did, true) = do rest ← next el; some (rest.0, did ++ rest.1, rest.2)

  module _ (sent_by : ℕ → Event P → List (Sent P)) where
    -- What the called handlers send to this loop.
    unfoldable pub handlers_send : List (Did P) → EventLoop P → Option (EventLoop P)
    handlers_send [] el = some el
    handlers_send (handled f evt ∷ did) el = do
      sent ← send_all (sent_by f evt) el
      handlers_send did sent
    handlers_send (deleted f evt ∷ did) el = handlers_send did el

    -- An iteration with its handler's calls of `send_event` and `send_urgent_event` on the loop; the deleter,
    -- which is called after the handler, does not touch the loop.
    unfoldable pub full_iteration : EventLoop P → Option (EventLoop P × List (Did P) × Bool)
    full_iteration el = do
      once ← event_loop_iteration el
      sent ← handlers_send once.1 once.0
      some (sent, once.1, once.2)

    -- `run_event_loop`, for so many iterations: `true` where it has not ended by then.
    unfoldable pub run_event_loop : ℕ → EventLoop P → Option (EventLoop P × List (Did P) × Bool)
    run_event_loop zero el = some (el, [], true)
    run_event_loop (suc n) el =
        full_iteration el >>= (λ once. and_then (λ el. run_event_loop n el) once)

  -- `event_destructor` on each event that is left, and the end of the tables; the fuel is that of
  -- `ts_queue_destroy`.
  unfoldable pub event_loop_destroy : ℕ → EventLoop P → Option (EventLoop P × List (Did P))
  event_loop_destroy fuel el = do
    destroyed ← destroy_loop fuel el.event_queue []
    some (
      record {
        event_queue = destroyed.0;
        handlers = (Ops.destroy el.handlers).0;
        deleters = (Ops.destroy el.deleters).0;
      },
      map (λ evt. deleted evt.deleter evt) destroyed.1,
    )
