-- ===== src/Client/Control/Tables.antt =====
-- The handlers of the controller's loop, and the address of the server.
use acos_chat.Base.{
  ℕ, ◌≤◌, ◌<◌, ◌≡◌, ◌≢◌, refl, sym, ap, ◌∙◌, List, [], ◌∷◌, ◌++◌, Bool, true, false, Option, none,
  some, ltb, ◌==◌, ==_iff, subst, all_below, if◌then◌else◌, All, Bool-cases, inl, inr,
  all_below_sound, arith,
}
use acos_chat.TsMap.{find, add, split, cut}
use acos_chat.TsMap.Ops
use acos_chat.EventLoop.{event_loop_init}
use acos_chat.Client.Control.{
  init_loop, init_handlers, init_deleters, handler_of, deleter_of, split_port, status_event_type,
}

abbrev found : (P : Type 0) → ℕ → Bool
found P type =
    if ltb type 3
    then true
    else if (Ops.find_val (init_loop {P = P}).handlers type).1 == handler_of type
    then (Ops.find_val (init_loop {P = P}).deleters type).1
      == (if type == status_event_type then 0 else deleter_of type)
    else false

all_found : (P : Type 0) → all_below 8 (found P) ≡ true
unfolding init_loop init_handlers init_deleters Ops.find_val find Ops.insert event_loop_init
    Ops.init add split cut
all_found P = refl

-- The types of the events from 3 to 7 have their own handlers, and all of them but that of a status,
-- which is only freed, their own deleters.
pub init_loop_lem :
    (P : Type 0) (type : ℕ)
    → 3 ≤ type
    → type < 8
    → ((Ops.find_val (init_loop {P = P}).handlers type).1 ≡ handler_of type)
      × ((Ops.find_val (init_loop {P = P}).deleters type).1
          ≡ (if type == status_event_type then 0 else deleter_of type))
init_loop_lem P type low high =
    let h : found P type ≡ true = all_below_sound 8 (found P) type (all_found P) high in
    (ground (arith, h), ground (arith, h))

-- The address again.
abbrev pub joined : List ℕ × Option (List ℕ) → List ℕ
joined (name, none) = name
joined (name, some port) = name ++ 58 ∷ port

joined_cons : (c : ℕ) (p : List ℕ × Option (List ℕ)) → joined (c ∷ p.0, p.1) ≡ c ∷ joined p
joined_cons c (name, none) = refl
joined_cons c (name, some port) = refl

abbrev Splits : List ℕ → List ℕ × Option (List ℕ) → Type 0
Splits str p = All (λ c. c ≢ 58) p.0 × (joined p ≡ str)

is_colon : (c : ℕ) → (c == 58) ≡ true → c ≡ 58
is_colon c h = (==_iff c 58).0 h

not_colon : (c : ℕ) → (c == 58) ≡ false → c ≢ 58
not_colon c h = ground arith

-- For every address, the name has no ':', and what is behind the first ':' is the port.
pub split_port_lem :
    (str : List ℕ) → All (λ c. c ≢ 58) (split_port str).0 × (joined (split_port str) ≡ str)
unfolding split_port
split_port_lem [] = (tt, refl)
split_port_lem (c ∷ str) = elim (Bool-cases (c == 58)) [
  | inl colon ↦
      subst
        (λ b.
          Splits (c ∷ str)
            (if b then ([], some str) else (c ∷ (split_port str).0, (split_port str).1)))
        (sym colon) (tt, ap (λ x. x ∷ str) (sym (is_colon c colon)))
  | inr other ↦
      let rest = split_port_lem str in
      subst
        (λ b.
          Splits (c ∷ str)
            (if b then ([], some str) else (c ∷ (split_port str).0, (split_port str).1)))
        (sym other)
        ((not_colon c other, rest.0), joined_cons c (split_port str) ∙ ap (λ t. c ∷ t) rest.1)
]
