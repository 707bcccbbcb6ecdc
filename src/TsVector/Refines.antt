-- ===== src/TsVector/Refines.antt =====
-- A vector is the list of its elements.
use acos_chat.Base.{
  ℕ, suc, ◌+◌, ◌≤◌, ◌<◌, ◌≡◌, refl, sym, ap, ◌∙◌, subst, append_assoc, true, false, List, [], ◌∷◌,
  ◌++◌, Option, none, some, ◌>>=◌, take, drop, length, length-append, lt→ltb, ◌==◌, Bool-cases, inl,
  inr, arith,
}
use acos_chat.Message.Bytes.{take-length}
use acos_chat.TsVector.{TsVector, init, grow_up, write, push_back, clear}

pub record Holds {A : Type 0} (v : TsVector A) (xs : List A) : Type 0 where
  pub elements : take v.size v.block ≡ xs
  pub counted : length xs ≡ v.size
  pub fits : v.size ≤ v.capacity
  pub room : 0 < v.capacity

module _ {A : Type 0} where
  take-front : (xs ys : List A) (n : ℕ) → length xs ≡ n → take n (xs ++ ys) ≡ xs
  take-front xs ys n e = subst (λ n. take n (xs ++ ys) ≡ xs) e (take-length xs ys)

  init-Holds : Holds (init {A = A}) []
  unfolding init
  init-Holds = record { elements = refl; counted = refl; fits = omega arith; room = omega arith }

  write-Holds :
      (v : TsVector A) (xs : List A) (val : A)
      → Holds v xs
      → v.size < v.capacity
      → (w : TsVector A) × (write val v ≡ some w) × Holds w (xs ++ val ∷ [])
  unfolding write
  write-Holds v xs val h room =
      let rest = drop (suc v.size) v.block in
      let long : length (xs ++ val ∷ []) ≡ v.size + 1 =
        omega (arith, length-append xs (val ∷ []), h.counted) in
      (
        record v { block = take v.size v.block ++ val ∷ rest; size = v.size + 1 },
        rw (lt→ltb v.size v.capacity room) refl,
        record {
          elements =
              ap (λ front. take (v.size + 1) (front ++ val ∷ rest)) h.elements
              ∙ ap (take (v.size + 1)) (sym (append_assoc xs (val ∷ []) rest))
              ∙ take-front (xs ++ val ∷ []) rest (v.size + 1) long;
          counted = long;
          fits = omega arith;
          room = omega arith;
        },
      )

  grown-Holds :
      (v : TsVector A) (xs : List A) → Holds v xs → v.size ≡ v.capacity → Holds (grow_up true v) xs
  unfolding grow_up
  grown-Holds v xs h full = record {
    elements = h.elements;
    counted = h.counted;
    fits = omega (arith, h.fits);
    room = omega (arith, h.room);
  }

  room_after :
      (v : TsVector A) (xs : List A)
      → Holds v xs
      → v.size ≡ v.capacity
      → (grow_up true v).size < (grow_up true v).capacity
  unfolding grow_up
  room_after v xs h full = omega (arith, h.room)

  push_back-Holds :
      (v : TsVector A) (xs : List A) (val : A)
      → Holds v xs
      → (w : TsVector A) × (push_back true val v ≡ some w) × Holds w (xs ++ val ∷ [])
  unfolding push_back
  push_back-Holds v xs val h = elim (Bool-cases (v.size == v.capacity)) [
    | inl full ↦
        let same : v.size ≡ v.capacity = ground (arith, full) in
        let (w, e, holds) =
          write-Holds (grow_up true v) xs val (grown-Holds v xs h same) (room_after v xs h same) in
        (w, rw (push_back, full) e, holds)
    | inr part ↦
        let (w, e, holds) = write-Holds v xs val h (ground (arith, part, h.fits)) in
        (w, rw (push_back, part) e, holds)
  ]

-- The calls on a vector, and on the list.
pub data Call (A : Type 0) : Type 0 where
  pushes : A → Call A
  clears : Call A

module _ {A : Type 0} where
  abbrev pub on_list : List (Call A) → List A → List A
  on_list [] xs = xs
  on_list (pushes val ∷ calls) xs = on_list calls (xs ++ val ∷ [])
  on_list (clears ∷ calls) xs = on_list calls []

  -- Where `realloc` always gives a block.
  abbrev pub on_vector : List (Call A) → TsVector A → Option (TsVector A)
  on_vector [] v = some v
  on_vector (pushes val ∷ calls) v = push_back true val v >>= (λ w. on_vector calls w)
  on_vector (clears ∷ calls) v = on_vector calls (clear v)

  clear-Holds : (v : TsVector A) (xs : List A) → Holds v xs → Holds (clear v) []
  unfolding clear
  clear-Holds v xs h = record { elements = refl; counted = refl; fits = omega arith; room = h.room }

  calls-Hold :
      (calls : List (Call A)) (v : TsVector A) (xs : List A)
      → Holds v xs
      → (w : TsVector A) × (on_vector calls v ≡ some w) × Holds w (on_list calls xs)
  calls-Hold [] v xs h = (v, refl, h)
  calls-Hold (clears ∷ calls) v xs h = calls-Hold calls (clear v) [] (clear-Holds v xs h)
  calls-Hold (pushes val ∷ calls) v xs h =
      let (w, e, holds) = push_back-Holds v xs val h in
      let (u, f, rest) = calls-Hold calls w (xs ++ val ∷ []) holds in
      (u, ap (λ o. o >>= (λ w. on_vector calls w)) e ∙ f, rest)

  -- While `realloc` gives a block, no sequence of calls of ts_vector_push_back and ts_vector_clear
  -- on a new vector writes behind the block, and the elements of the vector are those of the list
  -- to which the same calls append, and which they empty.
  pub vector-refines :
      (calls : List (Call A))
      → (w : TsVector A) × (on_vector calls init ≡ some w)
        × (take w.size w.block ≡ on_list calls [])
  vector-refines calls =
      let (w, e, holds) = calls-Hold calls init [] init-Holds in (w, e, holds.elements)

  -- A push into a full vector for which `realloc` gives no block writes behind the old one.
  pub push_back_failed :
      (v : TsVector A) (val : A) → v.size ≡ v.capacity → push_back false val v ≡ none
  unfolding push_back write grow_up
  push_back_failed v val full = ground (arith, full)
