-- ===== src/Tests/Loops.antt =====
-- Runs of lib/event_loop.
use acos_chat.Base.{refl, Bool, true, false, ℕ, ◌≡◌, List, [], ◌∷◌, some, ◌==◌, All, arith}
use acos_chat.TsMap.Laws.{view}
use acos_chat.TsMap.Laws
use acos_chat.TsMap.Ops
use acos_chat.EventLoop.{Event, EventLoop, Sent, normal, urgent, event_loop_init, run_event_loop}
use acos_chat.EventLoop.Run.{IsEnd, done_to_all, up_to_end, run_event_loop_lem}
use acos_chat.EventLoop.Dispatch.{Waiting, its_deleter, event_loop_init-Waiting, send_event_lem}

abbrev event : ℕ → Event ℕ
event kind = record { kind = kind; deleter = 0; payload = 7 }

-- A loop with handlers for two types of events.
abbrev handling : EventLoop ℕ
handling = record event_loop_init {
  handlers = (Ops.insert (Ops.insert (event_loop_init {P = ℕ}).handlers 5 105).0 6 106).0;
}

handling-Waiting : Waiting handling []
handling-Waiting =
    let w = event_loop_init-Waiting {P = ℕ} in
    let one = Laws.insert-IsValid (event_loop_init {P = ℕ}).handlers w.handlers 5 105 in
    record {
      queue = w.queue;
      handlers =
          Laws.insert-IsValid (Ops.insert (event_loop_init {P = ℕ}).handlers 5 105).0 one 6 106;
      deleters = w.deleters;
    }

-- The first handler sends an event of the other type, the second one the urgent end.
abbrev sent_if : Bool → Bool → List (Sent ℕ)
sent_if true other = normal (event 6) ∷ []
sent_if false true = urgent (event 0) ∷ []
sent_if false false = []

abbrev sent_by : ℕ → Event ℕ → List (Sent ℕ)
sent_by f evt = sent_if (f == 105) (f == 106)

only_ends_if : (a b : Bool) → All IsEnd (sent_if a b)
only_ends_if true b = (tt, tt)
only_ends_if false true = (refl, tt)
only_ends_if false false = tt

only_ends : (f : ℕ) (evt : Event ℕ) → All IsEnd (sent_by f evt)
only_ends f evt = only_ends_if (f == 105) (f == 106)

-- Three events and the end in the queue.
abbrev with_deleter_of : EventLoop ℕ → ℕ → Event ℕ
with_deleter_of el kind = record (event kind) { deleter = its_deleter el (event kind) }

abbrev one : EventLoop ℕ
one = (send_event_lem handling (event 5) [] handling-Waiting).0

one-Waiting : Waiting one (with_deleter_of handling 5 ∷ [])
one-Waiting = (send_event_lem handling (event 5) [] handling-Waiting).2

abbrev two : EventLoop ℕ
two = (send_event_lem one (event 6) (with_deleter_of handling 5 ∷ []) one-Waiting).0

two-Waiting : Waiting two (with_deleter_of handling 5 ∷ with_deleter_of one 6 ∷ [])
two-Waiting = (send_event_lem one (event 6) (with_deleter_of handling 5 ∷ []) one-Waiting).2

abbrev before_end : List (Event ℕ)
before_end = with_deleter_of handling 5 ∷ with_deleter_of one 6 ∷ with_deleter_of two 8 ∷ []

abbrev three : EventLoop ℕ
three =
    (send_event_lem two (event 8) (with_deleter_of handling 5 ∷ with_deleter_of one 6 ∷ [])
      two-Waiting).0

three-Waiting : Waiting three before_end
three-Waiting =
    (send_event_lem two (event 8) (with_deleter_of handling 5 ∷ with_deleter_of one 6 ∷ [])
      two-Waiting).2

abbrev ending : EventLoop ℕ
ending = (send_event_lem three (event 0) before_end three-Waiting).0

ending-Waiting : Waiting ending (
    with_deleter_of handling 5
    ∷ with_deleter_of one 6
    ∷ with_deleter_of two 8
    ∷ with_deleter_of three 0
    ∷ [])
ending-Waiting = (send_event_lem three (event 0) before_end three-Waiting).2

run_event_loop_lem_example :
    (el' : EventLoop ℕ) × (left : List (Event ℕ)) × (run_event_loop sent_by 4 ending
      ≡ some (
        el',
        done_to_all (view ending.handlers) (up_to_end sent_by (view ending.handlers) before_end),
        false,
      ))
    × Waiting el' left
run_event_loop_lem_example =
    run_event_loop_lem sent_by only_ends before_end (with_deleter_of three 0) [] 4 ending
      ending-Waiting (omega arith, (omega arith, (omega arith, tt))) refl (omega arith)
