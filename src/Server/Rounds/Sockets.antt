-- ===== src/Server/Rounds/Sockets.antt =====
-- Which sockets a round polls: those of the clients whose message is not at the workers.
use acos_chat.Base.{
  ℕ, ◌≡◌, ◌≢◌, sym, ap, ◌∙◌, inl, inr, true, false, List, [], ◌∷◌, ◌++◌, append-nil, append_assoc,
  All, if◌then◌else◌, ◌==◌, Bool-cases, subst, arith,
}
use acos_chat.TsMap.Spec.{get, has, Entry, IsAscending, Above}
use acos_chat.TsMap.Laws.{view, fold_entries, forall_entries-fold}
use acos_chat.Server.Listener.{Connection}
use acos_chat.Server.Rounds.{Listener, push_back_conn, polling_conns}
use acos_chat.Server.Rounds.Sound.{client, conn_of, IsSound}

-- What holds of every element in two ways.
pub All-both {ℓ} :
    {A : Type ℓ} {P Q R : A → Type 0}
    → ((a : A) → P a → Q a → R a)
    → (xs : List A) → All P xs
    → All Q xs
    → All R xs
All-both f [] p q = tt
All-both f (x ∷ xs) p q = (f x p.0 q.0, All-both f xs p.1 q.1)

-- No element stands in the list again.
abbrev pub Apart : List ℕ → Type 0
Apart [] = Unit
Apart (s ∷ ss) = All (λ q. s ≢ q) ss × Apart ss

-- An entry is found by its key.
abbrev Found : List Entry → Entry → Type 0
Found es e = (get e.0 es ≡ e.1) × (has e.0 es ≡ true)

all_found : (es : List Entry) → IsAscending es → All (Found es) es
unfolding get has
all_found [] a = tt
all_found ((k, v) ∷ es) a = (
  ground arith,
  All-both (λ e below f. ground (arith, below, f.0, f.1)) es a.0 (all_found es a.1),
)

idle : (ℕ → Connection) → List Entry → List ℕ
idle conns [] = []
idle conns ((k, v) ∷ es) =
    if (conns v).in_worker then idle conns es else (conns v).sockid ∷ idle conns es

fold-idle :
    (conns : ℕ → Connection) (es : List Entry) (v : List ℕ)
    → fold_entries (push_back_conn conns) es v ≡ v ++ idle conns es
unfolding idle push_back_conn
fold-idle conns [] v = sym (append-nil v)
fold-idle conns ((k, a) ∷ es) v = elim (Bool-cases (conns a).in_worker) [
  | inl e ↦ rw e (fold-idle conns es v)
  | inr e ↦ rw e (
      fold-idle conns es (v ++ (conns a).sockid ∷ [])
      ∙ append_assoc v ((conns a).sockid ∷ []) (idle conns es))
]

module _ {W D : Type 0} (l : Listener W D) (i : IsSound l) where
  abbrev IsIdle : ℕ → Type 0
  IsIdle s = (client l s ≢ 0) × ((conn_of l s).in_worker ≡ false)

  abbrev Listed : List Entry → Type 0
  Listed = All (Found (view l.listener.clients))

  idle_entry :
      (k v : ℕ)
      → Found (view l.listener.clients) (k, v)
      → (conn_of l k ≡ l.conns v) × ((l.conns v).sockid ≡ k) × (client l k ≢ 0)
  idle_entry k v f =
      let there : client l k ≢ 0 = ground (arith, i.present k, f.1) in
      (ap l.conns f.0, sym (ap (λ a. (l.conns a).sockid) f.0) ∙ i.named k there, there)

  idle-IsIdle : (es : List Entry) → Listed es → All IsIdle (idle l.conns es)
  unfolding idle
  idle-IsIdle [] h = tt
  idle-IsIdle ((k, v) ∷ es) h = elim (Bool-cases (l.conns v).in_worker) [
    | inl e ↦ rw e (idle-IsIdle es h.1)
    | inr e ↦
        let entry = idle_entry k v h.0 in
        rw (e, entry.1)
          ((entry.2, ap (λ (c : Connection). c.in_worker) entry.0 ∙ e), idle-IsIdle es h.1)
  ]

  idle-Above :
      (b : ℕ) (es : List Entry) → Listed es → Above b es → All (λ q. b ≢ q) (idle l.conns es)
  unfolding idle
  idle-Above b [] h a = tt
  idle-Above b ((k, v) ∷ es) h a = elim (Bool-cases (l.conns v).in_worker) [
    | inl e ↦ rw e (idle-Above b es h.1 a.1)
    | inr e ↦
        rw (e, (idle_entry k v h.0).1)
          (λ z. absurd (omega (arith, z, a.0)), idle-Above b es h.1 a.1)
  ]

  idle-Apart : (es : List Entry) → Listed es → IsAscending es → Apart (idle l.conns es)
  unfolding idle
  idle-Apart [] h a = tt
  idle-Apart ((k, v) ∷ es) h a = elim (Bool-cases (l.conns v).in_worker) [
    | inl e ↦ rw e (idle-Apart es h.1 a.1)
    | inr e ↦ rw (e, (idle_entry k v h.0).1) (idle-Above k es h.1 a.0, idle-Apart es h.1 a.1)
  ]

  -- What holds of all idle sockets holds of each.
  idle_at :
      (P : ℕ → Type 0) (q : ℕ) (es : List Entry)
      → Listed es
      → has q es ≡ true
      → (conn_of l q).in_worker ≡ false
      → All P (idle l.conns es)
      → P q
  unfolding idle has
  idle_at P q [] h there free p = absurd (ground (arith, there))
  idle_at P q ((k, v) ∷ es) h there free p =
      let entry = idle_entry k v h.0 in
      elim (Bool-cases (k == q)) [
        | inl e ↦
            let at : k ≡ q = ground (arith, e) in
            let on : (l.conns v).in_worker ≡ false =
              ap (λ (c : Connection). c.in_worker) (sym entry.0 ∙ ap (conn_of l) at) ∙ free in
            subst P (entry.1 ∙ at) (unlisted on p).0
        | inr e ↦
            let later : has q es ≡ true = ground (arith, e, there) in
            elim (Bool-cases (l.conns v).in_worker) [
              | inl b ↦ idle_at P q es h.1 later free (skipped b p)
              | inr b ↦ idle_at P q es h.1 later free (unlisted b p).1
            ]
      ]
    where
      unlisted :
          (l.conns v).in_worker ≡ false
          → All P (idle l.conns ((k, v) ∷ es))
          → P (l.conns v).sockid × All P (idle l.conns es)
      unlisted b =
          subst
            (λ t.
              All P (if t then idle l.conns es else (l.conns v).sockid ∷ idle l.conns es)
              → P (l.conns v).sockid × All P (idle l.conns es))
            (sym b) (λ t. t)

      skipped :
          (l.conns v).in_worker ≡ true
          → All P (idle l.conns ((k, v) ∷ es))
          → All P (idle l.conns es)
      skipped b =
          subst
            (λ t.
              All P (if t then idle l.conns es else (l.conns v).sockid ∷ idle l.conns es)
              → All P (idle l.conns es))
            (sym b) (λ t. t)

  same_polled : polling_conns l ≡ idle l.conns (view l.listener.clients)
  unfolding polling_conns
  same_polled =
      forall_entries-fold l.listener.clients (push_back_conn l.conns) []
      ∙ fold-idle l.conns (view l.listener.clients) []

  -- What holds of all polled sockets holds of each client whose message is not at the workers.
  pub polled_at :
      (P : ℕ → Type 0) (q : ℕ)
      → client l q ≢ 0
      → (conn_of l q).in_worker ≡ false
      → All P (polling_conns l)
      → P q
  polled_at P q there free p =
      idle_at P q (view l.listener.clients)
        (all_found (view l.listener.clients) i.clients.valid.ascending)
        (ground (arith, i.present q)) free (subst (All P) same_polled p)

  pub polled-IsIdle : All IsIdle (polling_conns l)
  polled-IsIdle = subst (All IsIdle) (sym same_polled) (
      idle-IsIdle (view l.listener.clients)
        (all_found (view l.listener.clients) i.clients.valid.ascending))

  pub polled-Apart : Apart (polling_conns l)
  polled-Apart = subst Apart (sym same_polled) (
      idle-Apart (view l.listener.clients)
        (all_found (view l.listener.clients) i.clients.valid.ascending) i.clients.valid.ascending)
