-- ===== src/Wire/RoundTrip.antt =====
-- A message that was sent is received, however the socket cuts it.
use cs.Base.{
  ℕ, ◌<◌, ◌≡◌, refl, sym, ap, subst, ◌∙◌, inl, inr, true, false, not, ◌&&◌, Option, none, some,
  List, [], ◌∷◌, ◌++◌, append_assoc, leb, ◌==◌, length, arith, Bool-cases,
}
use cs.Wire.{
  magic_number, max_payload_size, Message, calculate_checksum, validate_message_header,
  encode_header, Received, chunk, interrupted, failed, Sent, recv_all, terminated, receive_payload,
  receive_body, receive_header, receive_message, stamped, send_response,
}
use cs.Wire.Bytes.{Fits, decode_header-encode_header, length-encode_header}
use cs.Wire.Pieces.{bytes_of, Open, recv_all-Takes, AllSent, send_response-AllSent}

recv_zero : (es : List Received) → recv_all 0 es ≡ some ([], es)
unfolding recv_all
recv_zero [] = refl
recv_zero (chunk c ∷ es) = refl
recv_zero (interrupted ∷ es) = refl
recv_zero (failed ∷ es) = refl

empty_payload : (l : List ℕ) → length l ≡ 0 → l ≡ []
empty_payload [] h = refl
empty_payload (x ∷ l) h = absurd (omega arith)

rest_of : Option (List ℕ × List Received) → List Received
rest_of none = []
rest_of (some (l, es)) = es

same_rest :
    (l : List ℕ) (es es' : List Received)
    → ◌≡◌ {A = Option (List ℕ × List Received)} (some ([], es)) (some (l, es'))
    → es ≡ es'
unfolding rest_of
same_rest l es es' e = ap rest_of e

module _ (m : Message) (es es' : List Received) (full : m.header.msg_length ≡ length m.payload)
    (got : recv_all (length m.payload) es ≡ some (m.payload, es')) where
  -- A message without a payload.
  bare_lem :
      m.header.msg_length ≡ 0
      → ◌≡◌ {A = Option (Message × List Received)}
          (some (record { header = m.header; payload = [] }, es))
          (some (m, es'))
  bare_lem none_left =
      let nothing = empty_payload m.payload (sym full ∙ none_left) in
      let same =
        same_rest m.payload es es'
          (sym (recv_zero es) ∙ (ap (λ n. recv_all n es) (sym none_left ∙ full) ∙ got)) in
      ap (λ l. some (record { header = m.header; payload = l }, es)) (sym nothing)
      ∙ ap (λ e. some (m, e)) same

  checked_lem :
      length m.payload < max_payload_size
      → calculate_checksum m.payload ≡ m.header.checksum
      → receive_payload m.header (recv_all m.header.msg_length es) ≡ some (m, es')
  unfolding terminated
  checked_lem small sum =
      ap (receive_payload m.header) (ap (λ n. recv_all n es) full ∙ got) ∙ ground arith

  receive_body_lem :
      m.header.magic ≡ magic_number
      → length m.payload < max_payload_size
      → calculate_checksum m.payload ≡ m.header.checksum
      → receive_body m.header es ≡ some (m, es')
  unfolding validate_message_header
  receive_body_lem magic small sum =
      let fine : not (m.header.magic == magic_number && leb m.header.msg_length max_payload_size)
          ≡ false =
        ground arith in
      elim (Bool-cases (m.header.msg_length == 0)) [
        | inl bare ↦ rw (fine, bare) (bare_lem (ground arith))
        | inr more ↦ rw (fine, more) (checked_lem small sum)
      ]

-- What `receive_message` makes of the bytes of a message.
receive_lem :
    (m : Message) (es : List Received) (after : List ℕ)
    → Fits m.header
    → m.header.magic ≡ magic_number
    → m.header.msg_length ≡ length m.payload
    → length m.payload < max_payload_size
    → calculate_checksum m.payload ≡ m.header.checksum
    → Open es
    → bytes_of es ≡ encode_header m.header ++ (m.payload ++ after)
    → (rest : List Received) × ((receive_message es ≡ some (m, rest))
        × (Open rest × (bytes_of rest ≡ after)))
unfolding receive_message
receive_lem m es after fits magic full small sum still e =
    let (es1, (got, (open1, left))) =
      recv_all-Takes (encode_header m.header) (m.payload ++ after) es still e in
    let (es2, (got2, h)) = recv_all-Takes m.payload after es1 open1 left in
    let read =
      ap receive_header (ap (λ n. recv_all n es) (sym (length-encode_header m.header)) ∙ got)
      ∙ ap (λ k. receive_body k es1) (decode_header-encode_header m.header fits) in
    (es2, (read ∙ receive_body_lem m es1 es2 full got2 magic small sum, h))

checksum_bound : (l : List ℕ) → calculate_checksum l < 4294967296
unfolding calculate_checksum
checksum_bound l = omega arith

-- The fields of a message to send fit into their sizes; its checksum is computed.
abbrev pub Sendable : Message → Type 0
Sendable m =
    (m.header.msg_type < 65536)
    × ((m.header.sequence_num < 4294967296)
        × ((m.header.magic ≡ magic_number)
            × ((m.header.msg_length ≡ length m.payload) × (length m.payload < max_payload_size))))

-- A message whose fields fit, with the magic number and a payload of fewer than 4096 bytes: where
-- `send_response` succeeds, however the socket splits what is sent, and the receiver's socket
-- delivers what was sent and more, cut anywhere into chunks that are not empty, with interruptions
-- anywhere and without a failure, `receive_message` returns the message with its checksum and
-- leaves the rest.
pub receive_message-send_response :
    (m : Message) (sends sends' : List Sent) (sent after : List ℕ) (es : List Received)
    → Sendable m
    → send_response m sends ≡ (true, (sent, sends'))
    → Open es
    → bytes_of es ≡ sent ++ after
    → (rest : List Received) × ((receive_message es ≡ some (stamped m, rest))
        × (Open rest × (bytes_of rest ≡ after)))
unfolding stamped
receive_message-send_response m sends sends' sent after es (type, (seq, (magic, (full, small))))
      done still e =
    let h = (stamped m).header in
    let all : sent ≡ encode_header h ++ m.payload =
      subst (AllSent (encode_header h ++ m.payload)) done (send_response-AllSent m sends) in
    let fits : Fits h = record {
      magic = omega arith;
      msg_type = type;
      msg_length = omega arith;
      sequence_num = seq;
      checksum = checksum_bound m.payload;
    } in
    receive_lem (stamped m) es after fits magic full small refl still
      (e ∙ (ap (λ l. l ++ after) all ∙ append_assoc (encode_header h) m.payload after))
