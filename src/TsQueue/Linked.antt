-- ===== src/TsQueue/Linked.antt =====
-- The nodes of a queue in order: each points to the next, the last to NULL, and none stands twice.
use acos_chat.Base.{
  ℕ, suc, ◌<◌, ◌≡◌, ◌≢◌, refl, sym, ◌∙◌, List, [], ◌∷◌, ◌++◌, Option, some, All, All-append, arith,
}
use acos_chat.TsQueue.{Node}

abbrev pub head : List ℕ → ℕ
head [] = 0
head (a ∷ ps) = a

-- The last address, or the given one of an empty list.
abbrev pub last_of : ℕ → List ℕ → ℕ
last_of d [] = d
last_of d (a ∷ ps) = last_of a ps

abbrev pub NotIn : ℕ → List ℕ → Type 0
NotIn p = All (λ q. q ≢ p)

pub last_of-append : (a b : ℕ) (ps : List ℕ) → last_of a (ps ++ b ∷ []) ≡ b
last_of-append a b [] = refl
last_of-append a b (c ∷ ps) = last_of-append c b ps

pub last_of_given : (a l : ℕ) (ps : List ℕ) → last_of a ps ≡ l → last_of l ps ≡ l
last_of_given a l [] e = refl
last_of_given a l (c ∷ ps) e = e

pub last-not-in : (a b : ℕ) (bs : List ℕ) → NotIn a (b ∷ bs) → last_of b bs ≢ a
last-not-in a b [] n = n.0
last-not-in a b (c ∷ bs) n = last-not-in a c bs n.1

module _ {V : Type 0} where
  abbrev pub Linked : (ℕ → Option (Node V)) → ℕ → List ℕ → List V → Type 0
  Linked cell bound [] [] = Unit
  Linked cell bound [] (v ∷ vs) = ⊥
  Linked cell bound (a ∷ ps) [] = ⊥
  Linked cell bound (a ∷ ps) (v ∷ vs) =
      (cell a ≡ some (record { next = head ps; val = v }))
      × (0 < a)
      × (a < bound)
      × NotIn a ps
      × Linked cell bound ps vs

  -- A heap that agrees on the nodes links them too.
  pub Linked-keep :
      (cell cell' : ℕ → Option (Node V)) (b b' : ℕ) (ps : List ℕ) (vs : List V)
      → b < suc b'
      → All (λ q. cell' q ≡ cell q) ps
      → Linked cell b ps vs
      → Linked cell' b' ps vs
  Linked-keep cell cell' b b' [] [] le k l = tt
  Linked-keep cell cell' b b' [] (v ∷ vs) le k l = l
  Linked-keep cell cell' b b' (a ∷ ps) [] le k l = l
  Linked-keep cell cell' b b' (a ∷ ps) (v ∷ vs) le k l =
      (k.0 ∙ l.0, l.1, omega arith, l.3, Linked-keep cell cell' b b' ps vs le k.1 l.4)

  pub bound-NotIn :
      (cell : ℕ → Option (Node V)) (b : ℕ) (ps : List ℕ) (vs : List V)
      → Linked cell b ps vs
      → NotIn b ps
  bound-NotIn cell b [] [] l = tt
  bound-NotIn cell b [] (v ∷ vs) l = tt
  bound-NotIn cell b (a ∷ ps) [] l = absurd l
  bound-NotIn cell b (a ∷ ps) (v ∷ vs) l = (λ e. omega arith, bound-NotIn cell b ps vs l.4)

  -- The last node exists.
  pub last_node :
      (cell : ℕ → Option (Node V)) (b a : ℕ) (ps : List ℕ) (v : V) (vs : List V)
      → Linked cell b (a ∷ ps) (v ∷ vs)
      → (w : V) × (cell (last_of a ps) ≡ some (record { next = 0; val = w }))
  last_node cell b a [] v [] l = (v, l.0)
  last_node cell b a [] v (w ∷ vs) l = absurd l.4
  last_node cell b a (c ∷ ps) v [] l = absurd l.4
  last_node cell b a (c ∷ ps) v (w ∷ vs) l = last_node cell b c ps w vs l.4

  -- Behind the last node a new one is hung on.
  pub Linked-append :
      (cell cell' : ℕ → Option (Node V)) (b b' a : ℕ) (ps : List ℕ) (v : V) (vs : List V) (x w : V)
      → ((q : ℕ) → q ≢ last_of a ps → q ≢ b → cell' q ≡ cell q)
      → cell (last_of a ps) ≡ some (record { next = 0; val = w })
      → cell' (last_of a ps) ≡ some (record { next = b; val = w })
      → cell' b ≡ some (record { next = 0; val = x })
      → 0 < b
      → b < b'
      → Linked cell b (a ∷ ps) (v ∷ vs)
      → Linked cell' b' (a ∷ (ps ++ b ∷ [])) (v ∷ (vs ++ x ∷ []))
  Linked-append cell cell' b b' a [] v [] x w keep old at_last new pos up l =
      (ground arith, l.1, omega arith, (λ e. omega arith, tt), (new, pos, omega arith, tt, tt))
  Linked-append cell cell' b b' a [] v (y ∷ vs) x w keep old at_last new pos up l = absurd l.4
  Linked-append cell cell' b b' a (c ∷ ps) v [] x w keep old at_last new pos up l = absurd l.4
  Linked-append cell cell' b b' a (c ∷ ps) v (y ∷ vs) x w keep old at_last new pos up l = (
    keep a (λ e. last-not-in a c ps l.3 (sym e)) (λ e. omega arith) ∙ l.0,
    l.1,
    omega arith,
    All-append _ (c ∷ ps) (b ∷ []) l.3 (λ e. omega arith, tt),
    Linked-append cell cell' b b' c ps y vs x w keep old at_last new pos up l.4,
  )
