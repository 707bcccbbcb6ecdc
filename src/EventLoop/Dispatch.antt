-- ===== src/EventLoop/Dispatch.antt =====
-- What is sent is dispatched, once, by its type.
use acos_chat.Base.{
  ℕ, ◌≡◌, ◌≢◌, refl, ap, subst, true, false, List, [], ◌∷◌, ◌++◌, some, if◌then◌else◌, ◌==◌, arith,
}
use acos_chat.TsMap.Spec.{get}
use acos_chat.TsMap.Laws.{IsValid, view}
use acos_chat.TsMap.Laws
use acos_chat.TsMap.Ops
use acos_chat.TsQueue.Laws.{Holds, init-Holds, push-Pushed, push_in_front-Pushed, pop-Popped}
use acos_chat.EventLoop.{
  Event, EventLoop, handled, deleted, exit_event_type, default_deleter, with_deleter, looked_up,
  exit_evt_deleter_stub, event_loop_init, send_event, send_urgent_event, dispatch, take_event,
  event_loop_iteration,
}

-- The loop's maps are valid, and its queue holds these events.
pub record Waiting {P : Type 0} (el : EventLoop P) (es : List (Event P)) : Type 0 where
  pub queue : Holds el.event_queue es
  pub handlers : IsValid el.handlers
  pub deleters : IsValid el.deleters

-- The deleter that the table names for an event, or the default one.
abbrev pub its_deleter : {P : Type 0} → EventLoop P → Event P → ℕ
its_deleter el evt =
    if get evt.kind (view el.deleters) == 0
    then default_deleter
    else get evt.kind (view el.deleters)

module _ {P : Type 0} where
  -- In a loop whose maps are valid and whose queue holds some events, `send_event` puts the event
  -- behind the others, with the deleter that the table names for its type or else the default one;
  -- both tables keep their entries.
  pub send_event_lem :
      (el : EventLoop P) (evt : Event P) (es : List (Event P))
      → Waiting el es
      → (el' : EventLoop P) × (send_event el evt ≡ some el')
        × Waiting el' (es ++ record evt { deleter = its_deleter el evt } ∷ [])
        × (view el'.handlers ≡ view el.handlers)
        × (view el'.deleters ≡ view el.deleters)
  unfolding send_event with_deleter
  send_event_lem el evt es w =
      let p = push-Pushed el.event_queue (with_deleter el evt) es w.queue in
      let same : with_deleter el evt ≡ record evt { deleter = its_deleter el evt } =
        ap (λ d. record evt { deleter = if d == 0 then default_deleter else d })
          (Laws.find_val_result el.deleters w.deleters evt.kind) in
      (
        record (looked_up el evt) { event_queue = p.queue },
        rw p.returns refl,
        record {
          queue = subst (λ e. Holds p.queue (es ++ e ∷ [])) same p.content;
          handlers = w.handlers;
          deleters = Laws.find_val-IsValid el.deleters w.deleters evt.kind;
        },
        refl,
        Laws.view-find_val el.deleters w.deleters evt.kind,
      )

  -- `send_urgent_event` puts the event in front of the others.
  pub send_urgent_event_lem :
      (el : EventLoop P) (evt : Event P) (es : List (Event P))
      → Waiting el es
      → (el' : EventLoop P) × (send_urgent_event el evt ≡ some el')
        × Waiting el' (record evt { deleter = its_deleter el evt } ∷ es)
        × (view el'.handlers ≡ view el.handlers)
  unfolding send_urgent_event with_deleter
  send_urgent_event_lem el evt es w =
      let p = push_in_front-Pushed el.event_queue (with_deleter el evt) es w.queue in
      let same : with_deleter el evt ≡ record evt { deleter = its_deleter el evt } =
        ap (λ d. record evt { deleter = if d == 0 then default_deleter else d })
          (Laws.find_val_result el.deleters w.deleters evt.kind) in
      (
        record (looked_up el evt) { event_queue = p.queue },
        rw p.returns refl,
        record {
          queue = subst (λ e. Holds p.queue (e ∷ es)) same p.content;
          handlers = w.handlers;
          deleters = Laws.find_val-IsValid el.deleters w.deleters evt.kind;
        },
        refl,
      )

  -- In a loop whose maps are valid and whose queue holds an event that is not the end and then
  -- others, an iteration takes that event, calls the handler that the table names for its type, if
  -- there is one, then the event's deleter, and goes on; the other events stay in their order, and
  -- both tables keep their entries.
  pub event_loop_iteration_lem :
      (el : EventLoop P) (evt : Event P) (es : List (Event P))
      → Waiting el (evt ∷ es)
      → evt.kind ≢ exit_event_type
      → (el' : EventLoop P) × (event_loop_iteration el
          ≡ some (
            el',
            (if get evt.kind (view el.handlers) == 0
                then deleted evt.deleter evt ∷ []
                else handled (get evt.kind (view el.handlers)) evt ∷ deleted evt.deleter evt ∷ []),
            true,
          ))
        × Waiting el' es
        × (view el'.handlers ≡ view el.handlers)
        × (view el'.deleters ≡ view el.deleters)
  unfolding event_loop_iteration take_event dispatch
  event_loop_iteration_lem el evt es w going =
      let p = pop-Popped el.event_queue evt es w.queue in
      let on : (evt.kind == exit_event_type) ≡ false = ground arith in
      (
        record el { event_queue = p.queue; handlers = (Ops.find_val el.handlers evt.kind).0 },
        rw (p.returns, on, Laws.find_val_result el.handlers w.handlers evt.kind) refl,
        record {
          queue = p.content;
          handlers = Laws.find_val-IsValid el.handlers w.handlers evt.kind;
          deleters = w.deleters;
        },
        Laws.view-find_val el.handlers w.handlers evt.kind,
        refl,
      )

  pub event_loop_init-Waiting : Waiting {P = P} event_loop_init []
  unfolding event_loop_init
  event_loop_init-Waiting = record {
    queue = init-Holds;
    handlers = Laws.init-IsValid;
    deleters = Laws.insert-IsValid Ops.init Laws.init-IsValid exit_event_type exit_evt_deleter_stub;
  }
