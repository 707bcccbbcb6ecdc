-- ===== src/TsQueue.antt =====
-- lib/ts_queue: the linked queue behind `ts_queue_t`, with its nodes as cells of a heap that no one
-- else reaches. A value is a pointer that is not NULL, and `none` stands for NULL as a value. The
-- outer `none` is a fault: an access through a pointer to no node. A call holds the mutex
-- throughout; `calloc` returns an address above all earlier ones.
pub mod Linked
pub mod Laws
pub mod Refines
use acos_chat.Base.{
  ℕ, zero, suc, ◌+◌, ◌-◌, Bool, true, false, List, [], ◌∷◌, ◌++◌, Option, none, some, if◌then◌else◌,
  ◌==◌,
}

-- `ts_queue_node_t`.
pub record Node (V : Type 0) : Type 0 where
  pub next : ℕ
  pub val : V

-- `ts_queue_t` without its mutex, its heap, and the next address.
pub record TsQueue (V : Type 0) : Type 0 where
  pub first : ℕ
  pub last : ℕ
  pub frozen : Bool
  pub size : ℕ
  pub cell : ℕ → Option (Node V)
  pub fresh : ℕ

abbrev pub store : {V : Type 0} → (ℕ → Option (Node V)) → ℕ → Option (Node V) → ℕ → Option (Node V)
store cell p n q = if p == q then n else cell q

module _ {V : Type 0} where
  unfoldable pub init : TsQueue V
  init = record { first = 0; last = 0; frozen = false; size = 0; cell = λ _. none; fresh = 1 }

  -- The new node, before the lock is taken.
  abbrev pub new_node : TsQueue V → V → TsQueue V
  new_node q val = record q {
    cell = store q.cell q.fresh (some (record { next = 0; val = val }));
    fresh = q.fresh + 1;
  }

  abbrev pub free_node : TsQueue V → ℕ → TsQueue V
  free_node q p = record q { cell = store q.cell p none }

  -- `q->last->next = node`
  abbrev pub set_next : Option (Node V) → TsQueue V → ℕ → Option (TsQueue V)
  set_next none q p = none
  set_next (some n) q p =
      some (record q { cell = store q.cell q.last (some (record n { next = p })) })

  -- The end of the second branch of `ts_queue_push`.
  abbrev pub append_node : Option (TsQueue V) → ℕ → Option (TsQueue V × Bool)
  append_node none p = none
  append_node (some q) p = some (record q { last = p; size = q.size + 1 }, true)

  unfoldable pub push : TsQueue V → V → Option (TsQueue V × Bool)
  push q val =
      if q.frozen
      then some (free_node (new_node q val) q.fresh, false)
      else (if q.size == 0
          then some (record (new_node q val) { first = q.fresh; last = q.fresh; size = 1 }, true)
          else append_node (set_next ((new_node q val).cell q.last) (new_node q val) q.fresh)
              q.fresh)

  -- `node->next = q->first` writes to the node that the call has made.
  unfoldable pub push_in_front : TsQueue V → V → Option (TsQueue V × Bool)
  push_in_front q val =
      if q.frozen
      then some (free_node (new_node q val) q.fresh, false)
      else (if q.size == 0
          then some (record (new_node q val) { first = q.fresh; last = q.fresh; size = 1 }, true)
          else some (
            record (new_node q val) {
              cell = store q.cell q.fresh (some (record { next = q.first; val = val }));
              first = q.fresh;
              size = q.size + 1;
            },
            true,
          ))

  abbrev pub pop_node : Option (Node V) → TsQueue V → Option (TsQueue V × Option V)
  pop_node none q = none
  pop_node (some n) q =
      some (
        record q { cell = store q.cell q.first none; first = n.next; size = q.size - 1 },
        some n.val,
      )

  unfoldable pub pop : TsQueue V → Option (TsQueue V × Option V)
  pop q =
      if q.frozen
      then some (q, none)
      else (if q.size == 0 then some (q, none) else pop_node (q.cell q.first) q)

  unfoldable pub queue_size : TsQueue V → ℕ
  queue_size q = q.size

  unfoldable pub queue_empty : TsQueue V → Bool
  queue_empty q = q.size == 0

  abbrev pub destroy_node : Option (Node V) → TsQueue V → Option (TsQueue V × V)
  destroy_node none q = none
  destroy_node (some n) q =
      some (record q { cell = store q.cell q.first none; first = n.next }, n.val)

  -- The loop of `ts_queue_destroy`, as the values that it hands to the destructor; on fuel.
  unfoldable pub destroy_loop : ℕ → TsQueue V → List V → Option (TsQueue V × List V)
  destroy_loop zero q given = none
  destroy_loop (suc fuel) q given = elim (q.first == 0) [
    | true ↦ some (record q { frozen = true }, given)
    | false ↦ elim (destroy_node (q.cell q.first) q) [
      | none ↦ none
      | some (q', v) ↦ destroy_loop fuel q' (given ++ v ∷ [])
    ]
  ]
