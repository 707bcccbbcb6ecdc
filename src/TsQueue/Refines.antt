-- ===== src/TsQueue/Refines.antt =====
-- Any sequence of calls on a queue answers like the same calls on the list of its values; and
-- `ts_queue_destroy` hands every value to the destructor.
use acos_chat.Base.{
  ℕ, zero, suc, ◌<◌, ◌≡◌, refl, ap, ◌∙◌, Bool, true, List, [], ◌∷◌, ◌++◌, Option, none, some,
  length, ◌==◌, arith, append_assoc, append-nil, All-imp,
}
use acos_chat.TsQueue.{
  Node, TsQueue, store, push, push_in_front, pop, queue_size, queue_empty, destroy_loop,
}
use acos_chat.TsQueue.Linked.{head, Linked, Linked-keep}
use acos_chat.TsQueue.Laws.{Holds, push-Pushed, push_in_front-Pushed, pop-Popped, pop_empty}

pub data Call (V : Type 0) : Type 0 where
  pushes urgently : V → Call V
  pops counts asks_empty : Call V

-- What a call returns.
pub data Answer (V : Type 0) : Type 0 where
  flag : Bool → Answer V
  number : ℕ → Answer V
  value : Option V → Answer V

module _ {V : Type 0} where
  abbrev answer_flag : Option (TsQueue V × Bool) → Option (TsQueue V × Answer V)
  answer_flag none = none
  answer_flag (some (q, b)) = some (q, flag b)

  abbrev answer_value : Option (TsQueue V × Option V) → Option (TsQueue V × Answer V)
  answer_value none = none
  answer_value (some (q, o)) = some (q, value o)

  unfoldable pub step : Call V → TsQueue V → Option (TsQueue V × Answer V)
  step (pushes x) q = answer_flag (push q x)
  step (urgently x) q = answer_flag (push_in_front q x)
  step pops q = answer_value (pop q)
  step counts q = some (q, number (queue_size q))
  step asks_empty q = some (q, flag (queue_empty q))

  -- The answers of a sequence of calls, or a fault.
  unfoldable pub answers : List (Call V) → TsQueue V → Option (List (Answer V))
  answers [] q = some []
  answers (c ∷ cs) q = elim (step c q) [
    | none ↦ none
    | some (q', a) ↦ elim (answers cs q') [ none ↦ none | some r ↦ some (a ∷ r) ]
  ]

  -- The same calls on a list.
  unfoldable pub list_step : Call V → List V → List V × Answer V
  list_step (pushes x) xs = (xs ++ x ∷ [], flag true)
  list_step (urgently x) xs = (x ∷ xs, flag true)
  list_step pops [] = ([], value none)
  list_step pops (x ∷ xs) = (xs, value (some x))
  list_step counts xs = (xs, number (length xs))
  list_step asks_empty xs = (xs, flag (length xs == 0))

  unfoldable pub list_answers : List (Call V) → List V → List (Answer V)
  list_answers [] xs = []
  list_answers (c ∷ cs) xs = (list_step c xs).1 ∷ list_answers cs (list_step c xs).0

  -- One call has no fault, and is the call on the list.
  record Steps (c : Call V) (q : TsQueue V) (xs : List V) : Type 0 where
    queue : TsQueue V
    returns : step c q ≡ some (queue, (list_step c xs).1)
    content : Holds queue (list_step c xs).0

  step-Steps : (c : Call V) (q : TsQueue V) (xs : List V) → Holds q xs → Steps c q xs
  unfolding step list_step
  step-Steps (pushes x) q xs h =
      let p = push-Pushed q x xs h in
      record { queue = p.queue; returns = ap answer_flag p.returns; content = p.content }
  step-Steps (urgently x) q xs h =
      let p = push_in_front-Pushed q x xs h in
      record { queue = p.queue; returns = ap answer_flag p.returns; content = p.content }
  step-Steps pops q [] h = record {
    queue = q;
    returns = ap answer_value (pop_empty q h);
    content = h;
  }
  step-Steps pops q (x ∷ xs) h =
      let p = pop-Popped q x xs h in
      record { queue = p.queue; returns = ap answer_value p.returns; content = p.content }
  step-Steps counts q xs h = record {
    queue = q;
    returns = ap (λ n. some (q, number n)) (counted q xs h);
    content = h;
  }
    where
      counted : (q : TsQueue V) (xs : List V) → Holds q xs → queue_size q ≡ length xs
      counted q xs h = unfold queue_size in h.holds.counted
  step-Steps asks_empty q xs h = record {
    queue = q;
    returns = ap (λ b. some (q, flag b)) (empty q xs h);
    content = h;
  }
    where
      empty : (q : TsQueue V) (xs : List V) → Holds q xs → queue_empty q ≡ (length xs == 0)
      empty q xs h = unfold queue_empty in ap (λ n. n == 0) h.holds.counted

  -- From any queue that holds a list, a sequence of calls of ts_queue_push,
  -- ts_queue_push_in_front, ts_queue_pop, ts_queue_size and ts_queue_empty meets no fault, and its
  -- answers are those of the same calls on the list: first in, first out, but for urgent pushes.
  pub queue_answers-refines :
      (cs : List (Call V)) (q : TsQueue V) (xs : List V)
      → Holds q xs
      → answers cs q ≡ some (list_answers cs xs)
  unfolding answers list_answers
  queue_answers-refines [] q xs h = refl
  queue_answers-refines (c ∷ cs) q xs h =
      let s = step-Steps c q xs h in
      rw (answers, s.returns, queue_answers-refines cs s.queue (list_step c xs).0 s.content)

  loop_end :
      (fuel : ℕ) (q : TsQueue V) (given : List V)
      → q.first ≡ 0
      → destroy_loop (suc fuel) q given ≡ some (record q { frozen = true }, given)
  unfolding destroy_loop
  loop_end fuel q given f = ground arith

  -- The queue after the round that frees its first node.
  abbrev without_first : TsQueue V → ℕ → TsQueue V
  without_first q p = record q { cell = store q.cell q.first none; first = p }

  loop_node :
      (fuel : ℕ) (q : TsQueue V) (given : List V) (n : Node V)
      → 0 < q.first
      → q.cell q.first ≡ some n
      → destroy_loop (suc fuel) q given
        ≡ destroy_loop fuel (without_first q n.next) (given ++ n.val ∷ [])
  unfolding destroy_loop
  loop_node fuel q given n pos c = ground arith

  destroy_at :
      (ps : List ℕ) (fuel : ℕ) (q : TsQueue V) (xs given : List V)
      → Linked q.cell q.fresh ps xs
      → q.first ≡ head ps
      → length xs < fuel
      → (q' : TsQueue V) × (destroy_loop fuel q given ≡ some (q', given ++ xs))
        × (q'.frozen ≡ true)
        × (q'.first ≡ 0)
  destroy_at ps zero q xs given l f e = elim e [ ]
  destroy_at [] (suc fuel) q [] given l f e = (
    record q { frozen = true },
    loop_end fuel q given f ∙ ground (arith, append-nil given),
    refl,
    f,
  )
  destroy_at [] (suc fuel) q (x ∷ xs) given l f e = absurd l
  destroy_at (a ∷ ps) (suc fuel) q [] given l f e = absurd l
  destroy_at (a ∷ ps) (suc fuel) q (x ∷ xs) given l f e =
      let next : TsQueue V = without_first q (head ps) in
      let linked : Linked next.cell next.fresh ps xs =
        Linked-keep q.cell next.cell q.fresh q.fresh ps xs (omega arith)
          (All-imp (λ p n. ground arith) ps l.3) l.4 in
      let (q', r, fr, first) =
        destroy_at ps fuel next xs (given ++ x ∷ []) linked refl (omega arith) in
      (
        q',
        loop_node fuel q given (record { next = head ps; val = x }) (omega arith)
              (ap q.cell f ∙ l.0)
            ∙ r
            ∙ ap (λ ys. some (q', ys)) (append_assoc given (x ∷ []) xs),
        fr,
        first,
      )

  -- For a queue that holds a list, and with fuel above its length, `ts_queue_destroy` meets no
  -- fault, hands all values to the destructor in their order, each once, and leaves a frozen queue
  -- without a first node.
  pub destroy_loop_lem :
      (q : TsQueue V) (xs : List V) (fuel : ℕ)
      → Holds q xs
      → length xs < fuel
      → (q' : TsQueue V) × (destroy_loop fuel q [] ≡ some (q', xs))
        × (q'.frozen ≡ true)
        × (q'.first ≡ 0)
  destroy_loop_lem q xs fuel h e =
      destroy_at h.addresses fuel q xs [] h.holds.linked h.holds.at_first e
