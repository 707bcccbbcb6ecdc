-- ===== src/TsQueue/Laws.antt =====
-- The queue against a list of its values, first to last.
use acos_chat.Base.{
  ℕ, ◌+◌, ◌-◌, ◌<◌, ◌≡◌, ◌≢◌, refl, Bool, true, false, List, [], ◌∷◌, ◌++◌, Option, none, some,
  All-imp, length, length-append, arith,
}
use acos_chat.TsQueue.{TsQueue, store, init, push, push_in_front, pop, new_node}
use acos_chat.TsQueue.Linked.{
  head, last_of, last_of-append, last_of_given, Linked, Linked-keep, last-not-in, bound-NotIn,
  last_node, Linked-append,
}

-- The queue is in use and holds these values, in nodes at these addresses.
pub record HoldsAt {V : Type 0} (q : TsQueue V) (ps : List ℕ) (xs : List V) : Type 0 where
  pub linked : Linked q.cell q.fresh ps xs
  pub at_first : q.first ≡ head ps
  pub at_last : last_of q.last ps ≡ q.last
  pub counted : q.size ≡ length xs
  pub live : q.frozen ≡ false
  pub allocates : 0 < q.fresh

pub record Holds {V : Type 0} (q : TsQueue V) (xs : List V) : Type 0 where
  pub addresses : List ℕ
  pub holds : HoldsAt q addresses xs

module _ {V : Type 0} where
  pub init-Holds : Holds {V = V} init []
  unfolding init
  init-Holds = record {
    addresses = [];
    holds = record {
      linked = tt;
      at_first = refl;
      at_last = refl;
      counted = refl;
      live = refl;
      allocates = omega arith;
    };
  }

  -- What a push does: it succeeds, and the queue holds the new list.
  pub record Pushed (r : Option (TsQueue V × Bool)) (xs : List V) : Type 0 where
    pub queue : TsQueue V
    pub returns : r ≡ some (queue, true)
    pub content : Holds queue xs

  -- The queue after a push on the empty one.
  abbrev single : TsQueue V → V → TsQueue V
  single q x = record (new_node q x) { first = q.fresh; last = q.fresh; size = 1 }

  single-Holds : (q : TsQueue V) (x : V) → HoldsAt q [] [] → Holds (single q x) (x ∷ [])
  single-Holds q x h = record {
    addresses = q.fresh ∷ [];
    holds = record {
      linked = (ground arith, h.allocates, omega arith, tt, tt);
      at_first = refl;
      at_last = refl;
      counted = refl;
      live = h.live;
      allocates = omega arith;
    };
  }

  push_one : (q : TsQueue V) (x : V) → HoldsAt q [] [] → Pushed (push q x) (x ∷ [])
  unfolding push
  push_one q x h = record {
    queue = single q x;
    returns = ground (arith, h.live, h.counted);
    content = single-Holds q x h;
  }

  push_more :
      (q : TsQueue V) (x : V) (a : ℕ) (ps : List ℕ) (v : V) (vs : List V)
      → HoldsAt q (a ∷ ps) (v ∷ vs)
      → Pushed (push q x) (v ∷ (vs ++ x ∷ []))
  unfolding push
  push_more q x a ps v vs h =
      let (w, node) = last_node q.cell q.fresh a ps v vs h.linked in
      let apart : q.last ≢ q.fresh =
        rw h.at_last at
          (last-not-in q.fresh a ps (bound-NotIn q.cell q.fresh (a ∷ ps) (v ∷ vs) h.linked)) in
      let old : q.cell q.last ≡ some (record { next = 0; val = w }) = rw h.at_last at node in
      record {
        queue = record (new_node q x) {
          cell =
              store (store q.cell q.fresh (some (record { next = 0; val = x }))) q.last
                (some (record { next = q.fresh; val = w }));
          last = q.fresh;
          size = q.size + 1;
        };
        returns = ground (arith, h.live, h.counted);
        content = record {
          addresses = a ∷ (ps ++ q.fresh ∷ []);
          holds = record {
            linked =
                Linked-append q.cell _ q.fresh (q.fresh + 1) a ps v vs x w (λ p n m. ground arith)
                  node (ground arith) (ground arith) h.allocates (omega arith) h.linked;
            at_first = h.at_first;
            at_last = last_of-append a q.fresh ps;
            counted = omega (arith, h.counted, length-append vs (x ∷ []));
            live = h.live;
            allocates = omega arith;
          };
        };
      }

  -- A push puts the value behind the others.
  pub push-Pushed :
      (q : TsQueue V) (x : V) (xs : List V) → Holds q xs → Pushed (push q x) (xs ++ x ∷ [])
  push-Pushed q x xs h = push_cases q x h.addresses xs h.holds
    where
      push_cases :
          (q : TsQueue V) (x : V) (ps : List ℕ) (xs : List V)
          → HoldsAt q ps xs
          → Pushed (push q x) (xs ++ x ∷ [])
      push_cases q x [] [] h = push_one q x h
      push_cases q x [] (v ∷ vs) h = absurd h.linked
      push_cases q x (a ∷ ps) [] h = absurd h.linked
      push_cases q x (a ∷ ps) (v ∷ vs) h = push_more q x a ps v vs h

  push_front_at :
      (q : TsQueue V) (x : V) (ps : List ℕ) (xs : List V)
      → HoldsAt q ps xs
      → Pushed (push_in_front q x) (x ∷ xs)
  unfolding push_in_front
  push_front_at q x [] [] h = record {
    queue = single q x;
    returns = ground (arith, h.live, h.counted);
    content = single-Holds q x h;
  }
  push_front_at q x [] (v ∷ vs) h = absurd h.linked
  push_front_at q x (a ∷ ps) [] h = absurd h.linked
  push_front_at q x (a ∷ ps) (v ∷ vs) h = record {
    queue = record (new_node q x) {
      cell = store q.cell q.fresh (some (record { next = q.first; val = x }));
      first = q.fresh;
      size = q.size + 1;
    };
    returns = ground (arith, h.live, h.counted);
    content = record {
      addresses = q.fresh ∷ a ∷ ps;
      holds = record {
        linked = (
          ground (arith, h.at_first),
          h.allocates,
          omega arith,
          bound-NotIn q.cell q.fresh (a ∷ ps) (v ∷ vs) h.linked,
          Linked-keep q.cell _ q.fresh (q.fresh + 1) (a ∷ ps) (v ∷ vs) (omega arith)
              (All-imp (λ p n. ground arith) (a ∷ ps)
                (bound-NotIn q.cell q.fresh (a ∷ ps) (v ∷ vs) h.linked))
              h.linked,
        );
        at_first = refl;
        at_last = h.at_last;
        counted = omega (arith, h.counted);
        live = h.live;
        allocates = omega arith;
      };
    };
  }

  -- An urgent push puts the value in front of the others.
  pub push_in_front-Pushed :
      (q : TsQueue V) (x : V) (xs : List V) → Holds q xs → Pushed (push_in_front q x) (x ∷ xs)
  push_in_front-Pushed q x xs h = push_front_at q x h.addresses xs h.holds

  -- What a pop does: it returns a value, and the queue holds the rest.
  pub record Popped (r : Option (TsQueue V × Option V)) (o : Option V) (xs : List V) : Type 0 where
    pub queue : TsQueue V
    pub returns : r ≡ some (queue, o)
    pub content : Holds queue xs

  pop_at :
      (q : TsQueue V) (ps : List ℕ) (x : V) (xs : List V)
      → HoldsAt q ps (x ∷ xs)
      → Popped (pop q) (some x) xs
  unfolding pop
  pop_at q [] x xs h = absurd h.linked
  pop_at q (a ∷ ps) x xs h = record {
    queue = record q { cell = store q.cell q.first none; first = head ps; size = q.size - 1 };
    returns = ground (arith, h.live, h.counted, h.linked, h.at_first);
    content = record {
      addresses = ps;
      holds = record {
        linked =
            Linked-keep q.cell _ q.fresh q.fresh ps xs (omega arith)
              (All-imp (λ p n. ground (arith, h.at_first)) ps h.linked.3) h.linked.4;
        at_first = refl;
        at_last = last_of_given a q.last ps h.at_last;
        counted = omega (arith, h.counted);
        live = h.live;
        allocates = h.allocates;
      };
    };
  }

  -- A pop takes the first value.
  pub pop-Popped :
      (q : TsQueue V) (x : V) (xs : List V) → Holds q (x ∷ xs) → Popped (pop q) (some x) xs
  pop-Popped q x xs h = pop_at q h.addresses x xs h.holds

  -- A pop on the empty queue returns NULL and changes nothing.
  pub pop_empty : (q : TsQueue V) → Holds q [] → pop q ≡ some (q, none)
  unfolding pop
  pop_empty q h = ground (arith, h.holds.live, h.holds.counted)
