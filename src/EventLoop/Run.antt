-- ===== src/EventLoop/Run.antt =====
-- A loop from its first event to its end.
use acos_chat.Base.{
  ℕ, zero, suc, ◌<◌, ◌≡◌, ◌≢◌, refl, subst, sym, ap, ◌∙◌, inl, inr, Bool, true, false, ◌||◌,
  Bool-cases, append_assoc, append-nil, List, [], ◌∷◌, ◌++◌, some, ◌>>=◌, map, length, All,
  if◌then◌else◌, ◌==◌, arith,
}
use acos_chat.TsMap.Spec.{Entry, get}
use acos_chat.TsMap.Laws.{view}
use acos_chat.TsMap.Ops
use acos_chat.TsQueue.Laws.{pop-Popped}
use acos_chat.TsQueue.Refines.{destroy_loop_lem}
use acos_chat.EventLoop.{
  Event, EventLoop, Did, Sent, normal, urgent, send_all, handlers_send, full_iteration, handled,
  deleted, exit_event_type, take_event, event_loop_iteration, and_then, run_event_loop,
  event_loop_destroy,
}
use acos_chat.EventLoop.Dispatch.{
  Waiting, event_loop_iteration_lem, send_event_lem, send_urgent_event_lem,
}

module _ {P : Type 0} where
  -- What should happen to an event, and to a sequence of them.
  abbrev pub done_to : List Entry → Event P → List (Did P)
  done_to handlers evt =
      if get evt.kind handlers == 0
      then deleted evt.deleter evt ∷ []
      else handled (get evt.kind handlers) evt ∷ deleted evt.deleter evt ∷ []

  abbrev pub done_to_all : List Entry → List (Event P) → List (Did P)
  done_to_all handlers [] = []
  done_to_all handlers (evt ∷ es) = done_to handlers evt ++ done_to_all handlers es

  exits :
      (el : EventLoop P) (evt : Event P) (es : List (Event P))
      → Waiting el (evt ∷ es)
      → evt.kind ≡ exit_event_type
      → (el' : EventLoop P) × (event_loop_iteration el ≡ some (el', [], false)) × Waiting el' es
  unfolding event_loop_iteration take_event
  exits el evt es w end =
      let p = pop-Popped el.event_queue evt es w.queue in
      (
        record el { event_queue = p.queue },
        rw (p.returns, end) refl,
        record { queue = p.content; handlers = w.handlers; deleters = w.deleters },
      )

  abbrev pub is_urgent : Sent P → Bool
  is_urgent (normal evt) = false
  is_urgent (urgent evt) = true

  abbrev pub any_urgent : List (Sent P) → Bool
  any_urgent [] = false
  any_urgent (s ∷ sends) = is_urgent s || any_urgent sends

  -- What is sent urgently is the end, as everywhere in the program.
  abbrev pub IsEnd : Sent P → Type 0
  IsEnd (normal evt) = Unit
  IsEnd (urgent evt) = evt.kind ≡ exit_event_type

  -- What the handler of an event sends to the loop.
  abbrev pub sent_for : (ℕ → Event P → List (Sent P)) → List Entry → Event P → List (Sent P)
  sent_for sent_by handlers evt =
      if get evt.kind handlers == 0 then [] else sent_by (get evt.kind handlers) evt

  -- The events up to the first whose handler sends the urgent end.
  abbrev pub up_to_end :
      (ℕ → Event P → List (Sent P)) → List Entry → List (Event P) → List (Event P)
  up_to_end sent_by handlers [] = []
  up_to_end sent_by handlers (evt ∷ es) =
      evt
      ∷ (if any_urgent (sent_for sent_by handlers evt) then [] else up_to_end sent_by handlers es)

  -- The queue behind what was sent: unchanged but for its end, or an end in front.
  abbrev Queued : Bool → List (Event P) → List (Event P) → Type 0
  Queued false es now = (back : List (Event P)) × (now ≡ es ++ back)
  Queued true es now =
      (end : Event P) × (rest : List (Event P)) × (end.kind ≡ exit_event_type) × (now ≡ end ∷ rest)

  record AllSent (el : EventLoop P) (es : List (Event P)) (sends : List (Sent P)) : Type 0 where
    el' : EventLoop P
    now : List (Event P)
    returns : send_all sends el ≡ some el'
    waiting : Waiting el' now
    queued : Queued (any_urgent sends) es now
    same : view el'.handlers ≡ view el.handlers

  behind :
      (b : Bool) (es : List (Event P)) (evt : Event P) (now : List (Event P))
      → Queued b (es ++ evt ∷ []) now
      → Queued b es now
  behind false es evt now (back, e) = (evt ∷ back, e ∙ append_assoc es (evt ∷ []) back)
  behind true es evt now q = q

  in_front :
      (b : Bool) (evt : Event P) (es now : List (Event P))
      → evt.kind ≡ exit_event_type
      → Queued b (evt ∷ es) now
      → Queued true es now
  in_front false evt es now end (back, e) = (evt, es ++ back, end, e)
  in_front true evt es now end q = q

  send_all_lem :
      (sends : List (Sent P)) (el : EventLoop P) (es : List (Event P))
      → Waiting el es
      → All IsEnd sends
      → AllSent el es sends
  unfolding send_all
  send_all_lem [] el es w ends = record {
    el' = el;
    now = es;
    returns = refl;
    waiting = w;
    queued = ([], sym (append-nil es));
    same = refl;
  }
  send_all_lem (normal evt ∷ sends) el es w ends =
      let (el₁, e, w₁, same, kept) = send_event_lem el evt es w in
      let rest = send_all_lem sends el₁ _ w₁ ends.1 in
      record {
        el' = rest.el';
        now = rest.now;
        returns = ap (λ o. o >>= (λ sent. send_all sends sent)) e ∙ rest.returns;
        waiting = rest.waiting;
        queued = behind (any_urgent sends) es _ rest.now rest.queued;
        same = rest.same ∙ same;
      }
  send_all_lem (urgent evt ∷ sends) el es w ends =
      let (el₁, e, w₁, same) = send_urgent_event_lem el evt es w in
      let rest = send_all_lem sends el₁ _ w₁ ends.1 in
      record {
        el' = rest.el';
        now = rest.now;
        returns = ap (λ o. o >>= (λ sent. send_all sends sent)) e ∙ rest.returns;
        waiting = rest.waiting;
        queued = in_front (any_urgent sends) _ es rest.now ends.0 rest.queued;
        same = rest.same ∙ same;
      }

module _ {P : Type 0} (sent_by : ℕ → Event P → List (Sent P))
    (only_ends : (f : ℕ) (evt : Event P) → All IsEnd (sent_by f evt)) where
  -- An iteration that takes an event, with what its handler sends.
  record Taken (el : EventLoop P) (evt : Event P) (es : List (Event P)) : Type 0 where
    el' : EventLoop P
    now : List (Event P)
    returns : full_iteration sent_by el ≡ some (el', done_to (view el.handlers) evt, true)
    waiting : Waiting el' now
    queued : Queued (any_urgent (sent_for sent_by (view el.handlers) evt)) es now
    same : view el'.handlers ≡ view el.handlers

  taken :
      (el : EventLoop P) (evt : Event P) (es : List (Event P))
      → Waiting el (evt ∷ es)
      → evt.kind ≢ exit_event_type
      → Taken el evt es
  unfolding full_iteration handlers_send send_all
  taken el evt es w going =
      let (el₁, e, left, same, kept) = event_loop_iteration_lem el evt es w going in
      let f = get evt.kind (view el.handlers) in
      elim (Bool-cases (f == 0)) [
        | inl nobody ↦ record {
          el' = el₁;
          now = es;
          returns = rw (e, nobody) refl;
          waiting = left;
          queued = rw nobody ([], sym (append-nil es));
          same = same;
        }
        | inr somebody ↦
            let sent = send_all_lem (sent_by f evt) el₁ es left (only_ends f evt) in
            record {
              el' = sent.el';
              now = sent.now;
              returns = rw (e, somebody, sent.returns) refl;
              waiting = sent.waiting;
              queued = rw somebody sent.queued;
              same = sent.same ∙ same;
            }
      ]

  ended :
      (n : ℕ) (el : EventLoop P) (end : Event P) (rest : List (Event P))
      → Waiting el (end ∷ rest)
      → end.kind ≡ exit_event_type
      → (el' : EventLoop P) × (left : List (Event P)) × (run_event_loop sent_by (suc n) el
          ≡ some (el', [], false))
        × Waiting el' left
  unfolding run_event_loop full_iteration handlers_send
  ended n el end rest w is =
      let (el', e, left) = exits el end rest w is in (el', rest, rw e refl, left)

  -- The loop after an iteration that takes an event.
  one_more :
      (n : ℕ) (el : EventLoop P) (evt : Event P) (es : List (Event P)) (t : Taken el evt es)
      (el₂ : EventLoop P) (did : List (Did P))
      → run_event_loop sent_by n t.el' ≡ some (el₂, did, false)
      → run_event_loop sent_by (suc n) el ≡ some (el₂, done_to (view el.handlers) evt ++ did, false)
  unfolding run_event_loop
  one_more n el evt es t el₂ did e =
      ap (λ o. o >>= (λ once. and_then (λ el. run_event_loop sent_by n el) once)) t.returns
      ∙ ap
          (λ o. o >>= (λ (rest : EventLoop P × List (Did P) × Bool).
            some (rest.0, done_to (view el.handlers) evt ++ rest.1, rest.2)))
          e

  -- In a loop whose maps are valid, whose handlers may send events to it, urgent ones only with
  -- the type of `EXIT_EVT`, and whose queue holds events that are not the end, then an `EXIT_EVT`
  -- and then others, and with more iterations than events before the `EXIT_EVT`: `run_event_loop`
  -- ends, and those events are handled, by the handler that the table names for their type if
  -- there is one, and deleted, in order, each once, up to the first whose handler sends an urgent
  -- event; the loop's maps and queue stay valid.
  pub run_event_loop_lem :
      (es : List (Event P)) (exit : Event P) (others : List (Event P)) (n : ℕ) (el : EventLoop P)
      → Waiting el (es ++ exit ∷ others)
      → All (λ evt. evt.kind ≢ exit_event_type) es
      → exit.kind ≡ exit_event_type
      → length es < n
      → (el' : EventLoop P) × (left : List (Event P)) × (run_event_loop sent_by n el
          ≡ some (
            el',
            done_to_all (view el.handlers) (up_to_end sent_by (view el.handlers) es),
            false,
          ))
        × Waiting el' left
  unfolding run_event_loop
  run_event_loop_lem es exit others zero el w going end more = absurd (omega arith)
  run_event_loop_lem [] exit others (suc n) el w going end more = ended n el exit others w end
  run_event_loop_lem (evt ∷ es) exit others (suc zero) el w going end more = absurd (omega arith)
  run_event_loop_lem (evt ∷ es) exit others (suc (suc n)) el w going end more =
      let h = view el.handlers in
      let t = taken el evt (es ++ exit ∷ others) w going.0 in
      let queued = λ (b : Bool) (e : any_urgent (sent_for sent_by h evt) ≡ b).
        subst (λ b. Queued b (es ++ exit ∷ others) t.now) e t.queued in
      let done = λ (el₂ : EventLoop P) (b : Bool).
        let all : EventLoop P × List (Did P) × Bool =
          (el₂, done_to h evt ++ done_to_all h (if b then [] else up_to_end sent_by h es), false) in
        some all in
      elim (Bool-cases (any_urgent (sent_for sent_by h evt))) [
        | inl ends ↦
            let (last, rest, is, now) = queued true ends in
            let (el₂, left, e, w₂) =
              ended n t.el' last rest (subst (Waiting t.el') now t.waiting) is in
            (el₂, left, one_more (suc n) el evt _ t el₂ [] e ∙ ap (done el₂) (sym ends), w₂)
        | inr goes ↦
            let (back, now) = queued false goes in
            let behind_all = now ∙ append_assoc es (exit ∷ others) back in
            let (el₂, left, e, w₂) =
              run_event_loop_lem es exit (others ++ back) (suc n) t.el'
                (subst (Waiting t.el') behind_all t.waiting) going.1 end (omega arith) in
            (
              el₂,
              left,
              one_more (suc n) el evt _ t el₂ _ e
                  ∙ ap
                      (λ g.
                        some (el₂, done_to h evt ++ done_to_all g (up_to_end sent_by g es), false))
                      t.same
                  ∙ ap (done el₂) (sym goes),
              w₂,
            )
      ]

module _ {P : Type 0} where
  -- `event_loop_destroy` of a loop whose queue holds some events, with fuel above their number, deletes
  -- each of them once, in order, and handles none.
  pub event_loop_destroy_lem :
      (es : List (Event P)) (fuel : ℕ) (el : EventLoop P)
      → Waiting el es
      → length es < fuel
      → (el' : EventLoop P) × (event_loop_destroy fuel el
          ≡ some (el', map (λ evt. deleted evt.deleter evt) es))
  unfolding event_loop_destroy
  event_loop_destroy_lem es fuel el w enough =
      let (q, e, frozen, first) = destroy_loop_lem el.event_queue es fuel w.queue enough in
      (
        record {
          event_queue = q;
          handlers = (Ops.destroy el.handlers).0;
          deleters = (Ops.destroy el.deleters).0;
        },
        rw (event_loop_destroy, e) refl,
      )
