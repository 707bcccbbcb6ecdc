-- ===== src/Server/Listener/Reads.antt =====
-- A message arrives as it was sent, in whatever parts.
use acos_chat.Base.{
  ℕ, zero, suc, ◌+◌, ◌-◌, ◌^◌, ◌<◌, ◌≤◌, ◌≡◌, refl, sym, ap, ap₂, ◌∙◌, inl, inr, ◌⊎◌, Bool-cases,
  lt→ltb, true, false, List, ◌++◌, none, some, length, take, drop, ltb, ◌==◌, arith,
}
use acos_chat.Message.{read_int}
use acos_chat.Server.Listener.{
  Connection, Verdict, waits, delivers, closed, faults, contents, new_connection, finish, open_body,
  fill_body, read_body, after_header, process_connection, read_message, and_on,
}
use acos_chat.Server.Listener.Bytes.{take-append_drop, drop-drop, length-drop}

-- The connection after `k` bytes of the stream `m`, whose first message has a body of `n` bytes.
record At (m : List ℕ) (n k : ℕ) (c : Connection) : Type 0 where
  read : c.bytes_read ≡ k
  stage :
      ((k < 5) × (c.header ≡ take k m) × (c.body ≡ none) × (c.bytes_expected ≡ 5))
      ⊎ ((5 ≤ k)
          × (k < 5 + n)
          × (c.header ≡ take 5 m)
          × (c.body ≡ some (take (k - 5) (drop 5 m)))
          × (c.bytes_expected ≡ 5 + n))

module _ {S : Type 0} (recv : S → ℕ → S × List ℕ) (rest : S → List ℕ)
    (in_order : (s : S) (n : ℕ)
      → ((recv s n).1 ≡ take (length (recv s n).1) (rest s))
        × (rest (recv s n).0 ≡ drop (length (recv s n).1) (rest s)))
    (at_most : (s : S) (n : ℕ) → length (recv s n).1 ≤ n)
    (arrives : (s : S) (n : ℕ) → 0 < n → 0 < length (rest s) → 0 < length (recv s n).1) (m : List ℕ)
    (n : ℕ) (stated : read_int (drop 1 (take 5 m)) ≡ some n) (small : 5 + n < 2 ^ 31)
    (complete : 5 + n ≤ length m) where
  -- What a call leaves of the stream: it gets on, or delivers the message.
  abbrev Progress : ℕ → S × Verdict → Type 0
  Progress k (s, waits c) = (k' : ℕ) × (k < k') × (rest s ≡ drop k' m) × At m n k' c
  Progress k (s, delivers c) =
      (rest s ≡ drop (5 + n) m) × (c.header ≡ take 5 m) × (contents c.body ≡ take n (drop 5 m))
  Progress k (s, closed) = ⊥
  Progress k (s, faults) = ⊥

  -- The bytes of one call.
  module _ (s : S) (k want : ℕ) (there : rest s ≡ drop k m) (before : k < 5 + n)
      (pos : 0 < want) where
    got_some : 0 < length (recv s want).1
    got_some = arrives s want pos (rw there (omega (arith, length-drop k m (omega arith))))

    got_bytes : (recv s want).1 ≡ take (length (recv s want).1) (drop k m)
    got_bytes = (in_order s want).0 ∙ ap (take (length (recv s want).1)) there

    left : rest (recv s want).0 ≡ drop (k + length (recv s want).1) m
    left =
        (in_order s want).1
        ∙ ap (drop (length (recv s want).1)) there
        ∙ drop-drop k (length (recv s want).1) m

  finish-Progress :
      (k k' : ℕ) (s : S) (c : Connection)
      → k < k'
      → 5 ≤ k'
      → k' ≤ 5 + n
      → rest s ≡ drop k' m
      → c.bytes_read ≡ k'
      → c.bytes_expected ≡ 5 + n
      → c.header ≡ take 5 m
      → c.body ≡ some (take (k' - 5) (drop 5 m))
      → Progress k (finish s c)
  unfolding finish
  finish-Progress k k' s c lt low high there read expected header body =
      elim (Bool-cases (c.bytes_read == c.bytes_expected)) [
        | inl e ↦
            let whole : k' ≡ 5 + n = ground arith in
            rw e (
              there ∙ ap (λ j. drop j m) whole,
              header,
              ap contents body ∙ ap (λ j. take j (drop 5 m)) (omega arith),
            )
        | inr e ↦ rw e (
          k',
          lt,
          there,
          record { read = read; stage = inr (low, ground arith, header, body, expected) },
        )
      ]

  fill_body-Progress :
      (b k : ℕ) (s : S) (c : Connection)
      → b ≤ k
      → 5 ≤ k
      → k < 5 + n
      → rest s ≡ drop k m
      → c.bytes_read ≡ k
      → c.bytes_expected ≡ 5 + n
      → c.header ≡ take 5 m
      → contents c.body ≡ take (k - 5) (drop 5 m)
      → Progress b (fill_body recv s c)
  unfolding fill_body
  fill_body-Progress b k s c le low high there read expected header body =
      let want : ℕ = c.bytes_expected - c.bytes_read in
      let got : List ℕ = (recv s want).1 in
      let some_came = got_some s k want there high (omega arith) in
      let few = at_most s want in
      let joined : contents c.body ++ got ≡ take (k + length got - 5) (drop 5 m) =
        ap₂ ◌++◌ body (
          got_bytes s k want there high (omega arith)
          ∙ ap (take (length got)) (ap (λ j. drop j m) (omega arith) ∙ sym (drop-drop 5 (k - 5) m)))
        ∙ take-append_drop (k - 5) (length got) (drop 5 m)
        ∙ ap (λ j. take j (drop 5 m)) (omega arith) in
      elim (Bool-cases (length got == 0)) [
        | inl e ↦ absurd (ground arith)
        | inr e ↦ rw e (
            finish-Progress b (k + length got) (recv s want).0 _ (omega arith) (omega arith)
              (omega arith) (left s k want there high (omega arith)) (ap (λ j. j + length got) read)
              expected header (ap some joined))
      ]

  -- The header is complete, and the body is not open yet.
  new_body-Progress :
      (b : ℕ) (s : S) (c : Connection)
      → b < 5
      → rest s ≡ drop 5 m
      → c.bytes_read ≡ 5
      → c.bytes_expected ≡ 5
      → c.header ≡ take 5 m
      → c.body ≡ none
      → Progress b (read_body recv s c (some n))
  unfolding read_body open_body finish
  new_body-Progress b s c lt there read expected header body = elim (Bool-cases (n == 0)) [
    | inl e ↦
        let empty : n ≡ 0 = ground arith in
        let end : 5 ≡ 5 + n = omega arith in
        let full : (c.bytes_read == c.bytes_expected) ≡ true = ground arith in
        rw (lt→ltb n (2 ^ 31) (omega arith), e, full)
          (
            there ∙ ap (λ j. drop j m) end,
            header,
            ap contents body ∙ ap (λ j. take j (drop 5 m)) (sym empty),
          )
    | inr e ↦
        rw (lt→ltb n (2 ^ 31) (omega arith), e, body)
          (fill_body-Progress b 5 s (open_body n none c) (omega arith) (omega arith) (ground arith)
            there read (ap (λ j. j + n) expected) header refl)
  ]

  after_header-Progress :
      (k k' : ℕ) (s : S) (c : Connection)
      → k < k'
      → k' ≤ 5
      → rest s ≡ drop k' m
      → c.bytes_read ≡ k'
      → c.bytes_expected ≡ 5
      → c.header ≡ take k' m
      → c.body ≡ none
      → Progress k (after_header recv s c)
  unfolding after_header
  after_header-Progress k k' s c lt le there read expected header body =
      elim (Bool-cases (ltb c.bytes_read 5)) [
        | inl e ↦ rw e (
          k',
          lt,
          there,
          record { read = read; stage = inl (ground arith, header, body, expected) },
        )
        | inr e ↦
            let five : k' ≡ 5 = ground arith in
            let head : c.header ≡ take 5 m = header ∙ ap (λ j. take j m) five in
            let size : read_int (drop 1 c.header) ≡ some n =
              ap (λ h. read_int (drop 1 h)) head ∙ stated in
            rw (e, size)
              (new_body-Progress k s c (omega arith) (there ∙ ap (λ j. drop j m) five) (read ∙ five)
                expected head body)
      ]

  process_connection-Progress :
      (k : ℕ) (s : S) (c : Connection)
      → rest s ≡ drop k m
      → At m n k c
      → Progress k (process_connection recv s c)
  unfolding process_connection after_header read_body open_body
  process_connection-Progress k s c there at = elim at.stage [
    | inl (lt, header, body, expected) ↦
        let want : ℕ = c.bytes_expected - c.bytes_read in
        let got : List ℕ = (recv s want).1 in
        let read = at.read in
        let some_came = got_some s k want there (omega arith) (omega arith) in
        let few = at_most s want in
        let start : ltb c.bytes_read 5 ≡ true = ground arith in
        let came : (length got == 0) ≡ false = ground arith in
        rw (start, came)
          (after_header-Progress k (k + length got) (recv s want).0 _ (omega arith) (omega arith)
            (left s k want there (omega arith) (omega arith)) (ap (λ j. j + length got) read)
            expected
            (ap₂ ◌++◌ header (got_bytes s k want there (omega arith) (omega arith))
              ∙ take-append_drop k (length got) m)
            body)
    | inr (low, high, header, body, expected) ↦
        let read = at.read in
        let started : ltb c.bytes_read 5 ≡ false = ground arith in
        let more : (n == 0) ≡ false = ground arith in
        let size : read_int (drop 1 c.header) ≡ some n =
          ap (λ h. read_int (drop 1 h)) header ∙ stated in
        let opened : open_body n c.body c ≡ c = ap (λ b. open_body n b c) body in
        rw (started, size, lt→ltb n (2 ^ 31) (omega arith), more, opened)
          (fill_body-Progress k k s c (omega arith) low high there read expected header
            (ap contents body))
  ]

  abbrev Delivered : S × Verdict → Type 0
  Delivered (s, waits c) = ⊥
  Delivered (s, delivers c) =
      (rest s ≡ drop (5 + n) m) × (c.header ≡ take 5 m) × (contents c.body ≡ take n (drop 5 m))
  Delivered (s, closed) = ⊥
  Delivered (s, faults) = ⊥

  and_on-Delivered :
      (k : ℕ) (next : S → Connection → S × Verdict) (r : S × Verdict)
      → Progress k r
      → ((k' : ℕ) (s : S) (c : Connection)
          → k < k'
          → rest s ≡ drop k' m
          → At m n k' c
          → Delivered (next s c))
      → Delivered (and_on next r)
  and_on-Delivered k next (s, waits c) (k', lt, there, at) go = go k' s c lt there at
  and_on-Delivered k next (s, delivers c) p go = p
  and_on-Delivered k next (s, closed) p go = p
  and_on-Delivered k next (s, faults) p go = p

  reads-Delivered :
      (polls k : ℕ) (s : S) (c : Connection)
      → 5 + n ≤ k + polls
      → rest s ≡ drop k m
      → At m n k c
      → Delivered (read_message recv polls s c)
  unfolding read_message
  reads-Delivered zero k s c enough there at = elim at.stage [
    | inl early ↦ absurd (ground arith)
    | inr late ↦ absurd (ground arith)
  ]
  reads-Delivered (suc polls) k s c enough there at =
      and_on-Delivered k (λ s c. read_message recv polls s c) (process_connection recv s c)
        (process_connection-Progress k s c there at)
        (λ k' s' c' lt there' at'. reads-Delivered polls k' s' c' (omega arith) there' at')

  delivered :
      (r : S × Verdict)
      → Delivered r
      → (s : S) × (c : Connection) × (r ≡ (s, delivers c))
        × (rest s ≡ drop (5 + n) m)
        × (c.header ++ contents c.body ≡ take (5 + n) m)
  delivered (s, waits c) d = absurd d
  delivered (s, delivers c) (there, header, body) =
      (s, c, refl, there, ap₂ ◌++◌ header body ∙ take-append_drop 5 n m)
  delivered (s, closed) d = absurd d
  delivered (s, faults) d = absurd d

  -- The header and the body apart.
  parts :
      (r : S × Verdict)
      → Delivered r
      → (s : S) × (c : Connection) × (r ≡ (s, delivers c))
        × (rest s ≡ drop (5 + n) m)
        × (c.header ≡ take 5 m)
        × (contents c.body ≡ take n (drop 5 m))
  parts (s, waits c) d = absurd d
  parts (s, delivers c) (there, header, body) = (s, c, refl, there, header, body)
  parts (s, closed) d = absurd d
  parts (s, faults) d = absurd d

  pub read_message_parts :
      (s : S) (sockid : ℕ)
      → rest s ≡ m
      → (s' : S) × (c : Connection) × (read_message recv (5 + n) s (new_connection sockid)
          ≡ (s', delivers c))
        × (rest s' ≡ drop (5 + n) m)
        × (c.header ≡ take 5 m)
        × (contents c.body ≡ take n (drop 5 m))
  unfolding new_connection
  read_message_parts s sockid there = parts (read_message recv (5 + n) s (new_connection sockid)) (
      reads-Delivered (5 + n) 0 s (new_connection sockid) (omega arith) there
        (record { read = refl; stage = inl (omega arith, refl, refl, refl) }))

  -- For a socket whose `recv` gives the bytes of its stream in order, at most as many as asked for
  -- and at least one where some are left, and a stream that begins with a whole message of `5 + n`
  -- bytes below 2 ^ 31, whose header states the length `n`: in whatever parts the bytes arrive, at
  -- most `5 + n` calls of `process_connection` on the new connection deliver it with a header and
  -- a body that are the bytes of the message, and leave the stream behind the message.
  pub read_message_lem :
      (s : S) (sockid : ℕ)
      → rest s ≡ m
      → (s' : S) × (c : Connection) × (read_message recv (5 + n) s (new_connection sockid)
          ≡ (s', delivers c))
        × (rest s' ≡ drop (5 + n) m)
        × (c.header ++ contents c.body ≡ take (5 + n) m)
  unfolding new_connection
  read_message_lem s sockid there =
      delivered (read_message recv (5 + n) s (new_connection sockid)) (
        reads-Delivered (5 + n) 0 s (new_connection sockid) (omega arith) there
          (record { read = refl; stage = inl (omega arith, refl, refl, refl) }))
