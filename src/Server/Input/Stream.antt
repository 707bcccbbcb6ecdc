-- ===== src/Server/Input/Stream.antt =====
-- A sequence of messages on one connection.
use acos_chat.Base.{
  ℕ, suc, ◌+◌, ◌-◌, ◌^◌, ◌≤◌, ◌<◌, ◌≡◌, refl, sym, ap, ap₂, ◌∙◌, subst, List, [], ◌∷◌, ◌++◌, some,
  map, length, length-append, take, drop, All, arith,
}
use acos_chat.Message.{
  Message, done, pack_message, pack_tokens, pack_size, read_int, be32, msg_header_size,
  unpack_message_1, unpack_message_2,
}
use acos_chat.Message.Bytes.{read_int-be32, take-length, drop-length}
use acos_chat.Message.RoundTrip.{IsToken, received, pack_size-length, unpack_message_1-pack_message}
use acos_chat.Server.Process.{Job}
use acos_chat.Server.Listener.{Connection, contents, new_connection, read_message}
use acos_chat.Server.Listener.Reads.{read_message_parts}
use acos_chat.Server.Input.{
  hand_on, input_msg_event_handler, input_msg_event_deleter, process_message_job_deleter, job_of,
  message_of, jobs,
}
use acos_chat.Server.Input.Socket.{On, read_message-On}

-- A message that fits the format, with fuel for its tokens.
pub record IsSendable (fuel : ℕ) (m : Message) : Type 0 where
  pub tokens : All IsToken m.tokens
  pub fits : length (pack_tokens m.tokens) < 2 ^ 31 - 5
  pub enough : length m.tokens < fuel

abbrev pub body_size : Message → ℕ
body_size m = length (pack_tokens m.tokens)

-- What the clients send, and the jobs that it should lead to.
abbrev pub sent : List Message → List ℕ → List ℕ
sent [] tail = tail
sent (m ∷ ms) tail = pack_message m ++ sent ms tail

abbrev pub job_for : ℕ → Message → Job
job_for sockid m = record {
  sockid = sockid;
  msg = record { msg_type = m.msg_type; tokens = map received m.tokens };
}

pack_message_parts :
    (fuel : ℕ) (m : Message)
    → IsSendable fuel m
    → pack_message m ≡ m.msg_type ∷ (be32 (body_size m) ++ pack_tokens m.tokens)
unfolding pack_message
pack_message_parts fuel m h =
    let size : pack_size msg_header_size m.tokens - msg_header_size ≡ body_size m =
      omega (arith, pack_size-length m.tokens msg_header_size h.tokens, h.fits) in
    rw size refl

-- The stream from a message on.
abbrev pub wire : Message → List ℕ → List ℕ
wire m tail = m.msg_type ∷ (be32 (body_size m) ++ (pack_tokens m.tokens ++ tail))

pub wire_lem :
    (fuel : ℕ) (m : Message) (tail : List ℕ)
    → IsSendable fuel m
    → pack_message m ++ tail ≡ wire m tail
unfolding be32
wire_lem fuel m tail h = ap (λ t. t ++ tail) (pack_message_parts fuel m h)

pub stated_size :
    (m : Message) (tail : List ℕ)
    → body_size m < 2 ^ 31
    → read_int (drop 1 (take 5 (wire m tail))) ≡ some (body_size m)
unfolding be32
stated_size m tail h = read_int-be32 (body_size m) [] (omega arith)

pub length-wire : (m : Message) (tail : List ℕ) → 5 + body_size m ≤ length (wire m tail)
unfolding be32
length-wire m tail = omega (arith, length-append (pack_tokens m.tokens) tail)

pub body-wire :
    (m : Message) (tail : List ℕ) → take (body_size m) (drop 5 (wire m tail)) ≡ pack_tokens m.tokens
unfolding be32
body-wire m tail = take-length (pack_tokens m.tokens) tail

pub rest-wire : (m : Message) (tail : List ℕ) → drop (5 + body_size m) (wire m tail) ≡ tail
unfolding be32
rest-wire m tail =
    let five : 5 + body_size m ≡ suc (suc (suc (suc (suc (body_size m))))) = omega arith in
    ap (λ k. drop k (wire m tail)) five ∙ drop-length (pack_tokens m.tokens) tail

-- The header and the body of a message that fits are unpacked.
pub unpacked :
    (fuel : ℕ) (m : Message) (tail : List ℕ)
    → IsSendable fuel m
    → unpack_message_2 fuel (take 5 (wire m tail)) (pack_tokens m.tokens)
      ≡ done (record { msg_type = m.msg_type; tokens = map received m.tokens })
unfolding unpack_message_1 be32
unpacked fuel m tail h =
    ap (unpack_message_1 fuel) (sym (pack_message_parts fuel m h))
    ∙ unpack_message_1-pack_message m fuel h.tokens (omega (arith, h.fits)) h.enough

handed :
    (fuel sockid : ℕ) (m : Message) (tail : List ℕ) (c : Connection)
    → IsSendable fuel m
    → c.sockid ≡ sockid
    → c.header ≡ take 5 (wire m tail)
    → contents c.body ≡ pack_tokens m.tokens
    → job_of (input_msg_event_handler fuel c) ≡ some (new_connection sockid, job_for sockid m)
unfolding input_msg_event_handler hand_on input_msg_event_deleter process_message_job_deleter
    new_connection
handed fuel sockid m tail c h on header body =
    ap (λ o. job_of (hand_on c o))
      (ap₂ (unpack_message_2 fuel) header body ∙ unpacked fuel m tail h)
    ∙ ap (λ k. some (new_connection k, job_for k m)) on

module _ {S : Type 0} (recv : S → ℕ → S × List ℕ) (rest : S → List ℕ)
    (in_order : (s : S) (n : ℕ)
      → ((recv s n).1 ≡ take (length (recv s n).1) (rest s))
        × (rest (recv s n).0 ≡ drop (length (recv s n).1) (rest s)))
    (at_most : (s : S) (n : ℕ) → length (recv s n).1 ≤ n)
    (arrives : (s : S) (n : ℕ) → 0 < n → 0 < length (rest s) → 0 < length (recv s n).1)
    (fuel sockid : ℕ) where
  one_job :
      (m : Message) (tail : List ℕ) (s : S)
      → IsSendable fuel m
      → rest s ≡ pack_message m ++ tail
      → (s' : S) × (c : Connection) × (message_of
            (read_message recv (5 + body_size m) s (new_connection sockid))
          ≡ some (s', c))
        × (job_of (input_msg_event_handler fuel c) ≡ some (new_connection sockid, job_for sockid m))
        × (rest s' ≡ tail)
  unfolding new_connection
  one_job m tail s h there =
      let (s', c, read, left, header, body) =
        read_message_parts recv rest in_order at_most arrives (wire m tail) (body_size m)
          (stated_size m tail (omega (arith, h.fits))) (omega (arith, h.fits)) (length-wire m tail)
          s sockid (there ∙ wire_lem fuel m tail h) in
      let on : c.sockid ≡ sockid =
        subst (On sockid) read
          (read_message-On sockid recv (5 + body_size m) s (new_connection sockid) refl) in
      (
        s',
        c,
        ap message_of read,
        handed fuel sockid m tail c h on header (body ∙ body-wire m tail),
        left ∙ rest-wire m tail,
      )

  -- For a socket whose `recv` gives the bytes of its stream in order, at most as many as asked for
  -- and at least one where some are left, and a stream that begins with packed messages, each of
  -- tokens in the ranges of their C types that are shorter than 2 ^ 31 - 5 bytes together and
  -- fewer than the fuel: in whatever parts the bytes arrive, the polls of the connection lead to
  -- one job for the workers for each message, in order, with its type and, for each token, its
  -- size and its bytes, and leave the stream behind them.
  pub jobs_lem :
      (ms : List Message) (tail : List ℕ) (s : S)
      → All (IsSendable fuel) ms
      → rest s ≡ sent ms tail
      → (s' : S) × (jobs recv fuel (map (λ m. 5 + body_size m) ms) s (new_connection sockid)
          ≡ some (s', map (job_for sockid) ms))
        × (rest s' ≡ tail)
  unfolding jobs
  jobs_lem [] tail s h there = (s, refl, there)
  jobs_lem (m ∷ ms) tail s h there =
      let (s', c, read, made, left) = one_job m (sent ms tail) s h.0 there in
      let (s'', more, end) = jobs_lem ms tail s' h.1 left in
      (s'', rw (jobs, read, made, more) refl, end)
