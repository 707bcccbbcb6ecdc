-- ===== src/Server/Rounds/Buffers.antt =====
-- The buffers of a connection between two reads.
use acos_chat.Base.{
  ℕ, ◌-◌, ◌^◌, ◌<◌, ◌≤◌, ◌≡◌, refl, List, [], ◌∷◌, Option, none, some, length, drop, ltb, subst,
  ◌==◌, Bool-cases, inl, inr, length-append, arith,
}
use acos_chat.Message.{read_int}
use acos_chat.Server.Listener.{
  Connection, Verdict, waits, delivers, closed, faults, open_body, finish, fill_body, read_body,
  after_header, process_connection,
}

-- The header is read as far as the count says, and whole before the body.
pub record IsRead (c : Connection) : Type 0 where
  pub header : c.bytes_read < 5 → (length c.header ≡ c.bytes_read) × (c.bytes_expected ≡ 5)
  pub whole : 5 ≤ c.bytes_read → 5 ≤ length c.header

-- A call for a connection of this socket leaves such a connection.
abbrev pub Leaves : {S : Type 0} → ℕ → S × Verdict → Type 0
Leaves sockid (s, waits c) = IsRead c × (c.sockid ≡ sockid)
Leaves sockid (s, delivers c) = IsRead c × (c.sockid ≡ sockid)
Leaves sockid (s, closed) = Unit
Leaves sockid (s, faults) = ⊥

read_int-some : (h : List ℕ) → 5 ≤ length h → (size : ℕ) × (read_int (drop 1 h) ≡ some size)
read_int-some [] e = absurd (omega arith)
read_int-some (a ∷ []) e = absurd (omega arith)
read_int-some (a ∷ b ∷ []) e = absurd (omega arith)
read_int-some (a ∷ b ∷ c ∷ []) e = absurd (omega arith)
read_int-some (a ∷ b ∷ c ∷ d ∷ []) e = absurd (omega arith)
read_int-some (a ∷ b ∷ c ∷ d ∷ x ∷ rest) e = (_, refl)

open_body-IsRead :
    (size : ℕ) (body : Option (List ℕ)) (c : Connection)
    → IsRead c
    → 5 ≤ c.bytes_read
    → 5 ≤ length (open_body size body c).header
unfolding open_body
open_body-IsRead size none c r h = r.whole h
open_body-IsRead size (some b) c r h = r.whole h

same_count :
    (size : ℕ) (body : Option (List ℕ)) (c : Connection)
    → ((open_body size body c).bytes_read ≡ c.bytes_read)
      × ((open_body size body c).sockid ≡ c.sockid)
unfolding open_body
same_count size none c = (refl, refl)
same_count size (some b) c = (refl, refl)

module _ {S : Type 0} (recv : S → ℕ → S × List ℕ) where
  finish-Leaves : (s : S) (c : Connection) → IsRead c → Leaves c.sockid (finish s c)
  unfolding finish
  finish-Leaves s c r = elim (Bool-cases (c.bytes_read == c.bytes_expected)) [
    | inl e ↦ rw e (record { header = r.header; whole = r.whole }, refl)
    | inr e ↦ rw e (r, refl)
  ]

  fill_body-Leaves :
      (s : S) (c : Connection)
      → 5 ≤ c.bytes_read
      → 5 ≤ length c.header
      → Leaves c.sockid (fill_body recv s c)
  unfolding fill_body
  fill_body-Leaves s c h k =
      elim (Bool-cases (length (recv s (c.bytes_expected - c.bytes_read)).1 == 0)) [
        | inl e ↦ rw e tt
        | inr e ↦ rw e (
            finish-Leaves (recv s (c.bytes_expected - c.bytes_read)).0 _
              (record { header = λ p. absurd (omega arith); whole = λ p. k }))
      ]

  read_body-Leaves :
      (s : S) (c : Connection) (size : ℕ)
      → IsRead c
      → 5 ≤ c.bytes_read
      → Leaves c.sockid (read_body recv s c (some size))
  unfolding read_body
  read_body-Leaves s c size r h = elim (Bool-cases (ltb size (2 ^ 31))) [
    | inr e ↦ rw e tt
    | inl e ↦ elim (Bool-cases (size == 0)) [
      | inl z ↦ rw (e, z) (finish-Leaves s c r)
      | inr z ↦
          let opened = same_count size c.body c in
          rw (e, z)
            (subst (λ id. Leaves id (fill_body recv s (open_body size c.body c))) opened.1
              (fill_body-Leaves s (open_body size c.body c) (omega (arith, opened.0))
                (open_body-IsRead size c.body c r h)))
    ]
  ]

  after_header-Leaves :
      (s : S) (c : Connection) → IsRead c → Leaves c.sockid (after_header recv s c)
  unfolding after_header
  after_header-Leaves s c r = elim (Bool-cases (ltb c.bytes_read 5)) [
    | inl e ↦ rw e (r, refl)
    | inr e ↦
        let whole : 5 ≤ c.bytes_read = ground arith in
        let size = read_int-some c.header (r.whole whole) in
        rw (e, size.1) (read_body-Leaves s c size.0 r whole)
  ]

  -- Where `recv` gives at most as many bytes as asked for, no call reads a length that is not there.
  pub process_connection-Leaves :
      ((s : S) (n : ℕ) → length (recv s n).1 ≤ n)
      → (s : S) (c : Connection) → IsRead c
      → Leaves c.sockid (process_connection recv s c)
  unfolding process_connection
  process_connection-Leaves at_most s c r = elim (Bool-cases (ltb c.bytes_read 5)) [
    | inr e ↦ rw e (after_header-Leaves s c r)
    | inl e ↦
        let got = recv s (c.bytes_expected - c.bytes_read) in
        elim (Bool-cases (length got.1 == 0)) [
          | inl z ↦ rw (e, z) tt
          | inr z ↦
              let early : c.bytes_read < 5 = ground arith in
              let most = at_most s (c.bytes_expected - c.bytes_read) in
              let all = length-append c.header got.1 in
              let before = r.header early in
              rw (e, z)
                (after_header-Leaves got.0 _ (record {
                  header = λ p. (omega (arith, most, all, before.0), before.1);
                  whole = λ p. omega (arith, most, all, before.0);
                }))
        ]
  ]
