-- ===== src/Wire/Receive.antt =====
-- What `receive_message` accepts.
use cs.Base.{
  ℕ, zero, suc, ◌-◌, ◌≤◌, ◌≡◌, ◌⊎◌, refl, subst, ◌∙◌, inl, inr, false, not, Option, none, some,
  List, [], ◌∷◌, ltb, leb, ◌==◌, length, length-append, length-set, take, arith, Bool-cases,
  if◌then◌else◌,
}
use cs.Wire.{
  magic_number, max_payload_size, MessageHeader, Message, calculate_checksum,
  validate_message_header, decode_header, header_size, Received, chunk, interrupted, failed,
  is_empty, prepend, recv_all, terminated, checked, receive_payload, receive_body, receive_header,
  receive_message,
}

length-take : (n : ℕ) (l : List ℕ) → n ≤ length l → length (take n l) ≡ n
length-take zero l h = refl
length-take (suc n) [] h = absurd (omega arith)
length-take (suc n) (x ∷ l) h = omega (arith, length-take n l)

-- As many bytes as `n`, where there are any.
abbrev HasLength : ℕ → Option (List ℕ × List Received) → Type 0
HasLength n none = Unit {0}
HasLength n (some (l, es)) = length l ≡ n

HasLength-prepend :
    (n : ℕ) (c : List ℕ) (o : Option (List ℕ × List Received))
    → length c ≤ n
    → HasLength (n - length c) o
    → HasLength n (prepend c o)
HasLength-prepend n c none h k = tt
HasLength-prepend n c (some (l, es)) h k = omega (arith, length-append c l)

HasLength-zero :
    (n : ℕ) (es : List Received) (o : Option (List ℕ × List Received))
    → HasLength n o
    → HasLength n (if n == 0 then some ([], es) else o)
HasLength-zero n es o h = elim (Bool-cases (n == 0)) [
  | inl e ↦ rw e (ground arith)
  | inr e ↦ rw e h
]

recv_all-HasLength : (n : ℕ) (es : List Received) → HasLength n (recv_all n es)
unfolding recv_all
recv_all-HasLength n [] = HasLength-zero n [] none tt
recv_all-HasLength n (interrupted ∷ es) =
    HasLength-zero n (interrupted ∷ es) (recv_all n es) (recv_all-HasLength n es)
recv_all-HasLength n (failed ∷ es) = HasLength-zero n (failed ∷ es) none tt
recv_all-HasLength n (chunk c ∷ es) =
    HasLength-zero n (chunk c ∷ es) _ (elim (Bool-cases (is_empty c)) [
      | inl closed ↦ rw closed tt
      | inr open_still ↦ rw open_still (elim (Bool-cases (leb (length c) n)) [
        | inl short ↦ rw short (
            HasLength-prepend n c (recv_all (n - length c) es) (ground arith)
              (recv_all-HasLength (n - length c) es))
        | inr long ↦ rw long (length-take n c (ground arith))
      ])
    ])

-- A message whose header is valid, with as many bytes as it says, and whose checksum is theirs if
-- there are any.
abbrev pub Accepted : Message → Type 0
Accepted m =
    (m.header.magic ≡ magic_number)
    × ((m.header.msg_length ≤ max_payload_size)
        × ((length m.payload ≡ m.header.msg_length)
            × ((m.header.msg_length ≡ 0) ⊎ (calculate_checksum m.payload ≡ m.header.checksum))))

-- What is said of a message, where there is one.
abbrev IfSome : Option (Message × List Received) → Type 0
IfSome none = Unit {0}
IfSome (some (m, _)) = Accepted m

valid :
    (h : MessageHeader)
    → not (validate_message_header h) ≡ false
    → (h.magic ≡ magic_number) × (h.msg_length ≤ max_payload_size)
unfolding validate_message_header
valid h e = ground arith

checked-IfSome :
    (h : MessageHeader) (payload : List ℕ) (es : List Received)
    → h.magic ≡ magic_number
    → h.msg_length ≤ max_payload_size
    → length payload ≡ h.msg_length
    → IfSome (checked h payload es)
checked-IfSome h payload es m small full =
    elim (Bool-cases (calculate_checksum payload == h.checksum)) [
      | inl same ↦ rw same (m, (small, (full, inr (ground arith))))
      | inr other ↦ rw other tt
    ]

length-terminated : (n : ℕ) (l : List ℕ) → length (terminated n l) ≡ length l
unfolding terminated
length-terminated n l = elim (Bool-cases (ltb n max_payload_size)) [
  | inl e ↦ rw e refl
  | inr e ↦ rw e (length-set l (max_payload_size - 1) 0)
]

receive_payload-IfSome :
    (h : MessageHeader) (o : Option (List ℕ × List Received))
    → h.magic ≡ magic_number
    → h.msg_length ≤ max_payload_size
    → HasLength h.msg_length o
    → IfSome (receive_payload h o)
receive_payload-IfSome h none m small full = tt
receive_payload-IfSome h (some (l, es)) m small full =
    checked-IfSome h (terminated h.msg_length l) es m small
      (length-terminated h.msg_length l ∙ full)

receive_body-IfSome : (h : MessageHeader) (es : List Received) → IfSome (receive_body h es)
receive_body-IfSome h es = elim (Bool-cases (not (validate_message_header h))) [
  | inl refused ↦ rw refused tt
  | inr fine ↦ rw fine (
      let (m, small) = valid h fine in
      elim (Bool-cases (h.msg_length == 0)) [
        | inl bare ↦ rw bare (m, (small, (ground arith, inl (ground arith))))
        | inr more ↦ rw more (
            receive_payload-IfSome h (recv_all h.msg_length es) m small
              (recv_all-HasLength h.msg_length es))
      ])
]

receive_header-IfSome : (o : Option (List ℕ × List Received)) → IfSome (receive_header o)
receive_header-IfSome none = tt
receive_header-IfSome (some (l, es)) = receive_body-IfSome (decode_header l) es

-- Whatever the peer sends and however the socket cuts it: a message that `receive_message` returns
-- has the magic number, at most 4096 bytes of payload, as many as its header says, and, if there
-- are any, the checksum of its header.
pub receive_message-Accepted :
    (es rest : List Received) (m : Message) → receive_message es ≡ some (m, rest) → Accepted m
unfolding receive_message
receive_message-Accepted es rest m e =
    subst IfSome e (receive_header-IfSome (recv_all header_size es))
