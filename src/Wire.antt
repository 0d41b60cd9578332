-- ===== src/Wire.antt =====
-- src/common/protocol.c, and `receive_message` and `send_response` of src/server/request_handler.c:
-- messages on a TCP connection. What the socket does, call by call, is a list of events. The header
-- is sent as the machine stores it, which is taken to be little-endian.
pub mod Bytes
pub mod Receive
pub mod Pieces
pub mod RoundTrip
use Prim.Native.Nat.{bit_xor}
use cs.Base.{
  ℕ, zero, suc, ◌+◌, ◌-◌, ◌*◌, ◌/◌, ◌%◌, Bool, true, false, not, ◌&&◌, Option, none, some, List, [],
  ◌∷◌, ◌++◌, ltb, leb, ◌==◌, length, take, drop, set, if◌then◌else◌,
}

abbrev pub magic_number : ℕ
magic_number = 0xabcd

abbrev pub max_payload_size : ℕ
max_payload_size = 4096

pub record MessageHeader : Type 0 where
  pub magic : ℕ
  pub msg_type : ℕ
  pub msg_length : ℕ
  pub sequence_num : ℕ
  pub checksum : ℕ

-- `payload` is the bytes in use, as many as `msg_length` says.
pub record Message : Type 0 where
  pub header : MessageHeader
  pub payload : List ℕ

-- `crc ^= data[i]`: a `char` is signed.
abbrev pub sign_extended : ℕ → ℕ
sign_extended c = if ltb c 128 then c else c + 4294967040

unfoldable pub crc_bit : ℕ → ℕ
crc_bit crc = if crc % 2 == 1 then bit_xor (crc / 2) 0xedb88320 else crc / 2

unfoldable pub crc_bits : ℕ → ℕ → ℕ
crc_bits zero crc = crc
crc_bits (suc n) crc = crc_bits n (crc_bit crc)

unfoldable pub crc_bytes : ℕ → List ℕ → ℕ
crc_bytes crc [] = crc
crc_bytes crc (c ∷ l) = crc_bytes (crc_bits 8 (bit_xor crc (sign_extended c))) l

-- The complement of a 32-bit number.
unfoldable pub calculate_checksum : List ℕ → ℕ
calculate_checksum bytes = 4294967295 - crc_bytes 4294967295 bytes

unfoldable pub validate_message_header : MessageHeader → Bool
validate_message_header h = h.magic == magic_number && leb h.msg_length max_payload_size

-- The bytes of an unsigned number, lowest first, and back.
unfoldable pub to_bytes : ℕ → ℕ → List ℕ
to_bytes zero n = []
to_bytes (suc k) n = n % 256 ∷ to_bytes k (n / 256)

unfoldable pub from_bytes : List ℕ → ℕ
from_bytes [] = 0
from_bytes (b ∷ l) = b + from_bytes l * 256

unfoldable pub encode_header : MessageHeader → List ℕ
encode_header h =
    to_bytes 2 h.magic
    ++ (to_bytes 2 h.msg_type
        ++ (to_bytes 4 h.msg_length ++ (to_bytes 4 h.sequence_num ++ to_bytes 4 h.checksum)))

unfoldable pub decode_header : List ℕ → MessageHeader
decode_header l = record {
  magic = from_bytes (take 2 l);
  msg_type = from_bytes (take 2 (drop 2 l));
  msg_length = from_bytes (take 4 (drop 4 l));
  sequence_num = from_bytes (take 4 (drop 8 l));
  checksum = from_bytes (take 4 (drop 12 l));
}

abbrev pub header_size : ℕ
header_size = 16

-- What a `recv` meets: bytes, no bytes where the peer has closed; EINTR; a timeout or an error.
pub data Received : Type 0 where
  chunk : List ℕ → Received
  interrupted : Received
  failed : Received

-- What a `send` meets: how many bytes it takes, EINTR, or an error.
pub data Sent : Type 0 where
  accepts : ℕ → Sent
  retry : Sent
  broken : Sent

abbrev pub is_empty : List ℕ → Bool
is_empty [] = true
is_empty (_ ∷ _) = false

abbrev pub prepend : List ℕ → Option (List ℕ × List Received) → Option (List ℕ × List Received)
prepend c none = none
prepend c (some (l, es)) = some (c ++ l, es)

-- The loop that receives `want` more bytes: `none` is -1. A chunk that is longer stays in the
-- socket for the next call.
unfoldable pub recv_all : ℕ → List Received → Option (List ℕ × List Received)
recv_all want [] = if want == 0 then some ([], []) else none
recv_all want (chunk c ∷ es) =
    let more = prepend c (recv_all (want - length c) es) in
    if want == 0
    then some ([], chunk c ∷ es)
    else if is_empty c
    then none
    else if leb (length c) want
    then more
    else some (take want c, chunk (drop want c) ∷ es)
recv_all want (interrupted ∷ es) =
    let more = recv_all want es in if want == 0 then some ([], interrupted ∷ es) else more
recv_all want (failed ∷ es) = if want == 0 then some ([], failed ∷ es) else none

-- The terminating zero: it overwrites the last byte of a payload that fills the buffer.
unfoldable pub terminated : ℕ → List ℕ → List ℕ
terminated n payload =
    if ltb n max_payload_size then payload else set payload (max_payload_size - 1) 0

abbrev pub checked : MessageHeader → List ℕ → List Received → Option (Message × List Received)
checked h payload es =
    if calculate_checksum payload == h.checksum
    then some (record { header = h; payload = payload }, es)
    else none

abbrev pub receive_payload :
    MessageHeader → Option (List ℕ × List Received) → Option (Message × List Received)
receive_payload h none = none
receive_payload h (some (payload, es)) = checked h (terminated h.msg_length payload) es

abbrev pub receive_body : MessageHeader → List Received → Option (Message × List Received)
receive_body h es =
    if not (validate_message_header h)
    then none
    else if h.msg_length == 0
    then some (record { header = h; payload = [] }, es)
    else receive_payload h (recv_all h.msg_length es)

abbrev pub receive_header : Option (List ℕ × List Received) → Option (Message × List Received)
receive_header none = none
receive_header (some (bytes, es)) = receive_body (decode_header bytes) es

-- The message and what is left in the socket, or `none` for -1.
unfoldable pub receive_message : List Received → Option (Message × List Received)
receive_message es = receive_header (recv_all header_size es)

-- Whether all was sent, what was sent, and the events left.
abbrev pub Sending : Type 0
Sending = Bool × (List ℕ × List Sent)

abbrev pub sent_before : List ℕ → Sending → Sending
sent_before c (b, (l, es)) = (b, (c ++ l, es))

unfoldable pub send_all : List ℕ → List Sent → Sending
send_all [] es = (true, ([], es))
send_all (b ∷ l) [] = (false, ([], []))
send_all (b ∷ l) (accepts zero ∷ es) = (false, ([], es))
send_all (b ∷ l) (accepts (suc n) ∷ es) = sent_before (b ∷ take n l) (send_all (drop n l) es)
send_all (b ∷ l) (retry ∷ es) = send_all (b ∷ l) es
send_all (b ∷ l) (broken ∷ es) = (false, ([], es))

-- The message with its checksum.
unfoldable pub stamped : Message → Message
stamped m = record m { header = record m.header { checksum = calculate_checksum m.payload } }

abbrev pub then_payload : List ℕ → Sending → Sending
then_payload payload (false, (l, es)) = (false, (l, es))
then_payload payload (true, (l, es)) = sent_before l (send_all payload es)

unfoldable pub send_response : Message → List Sent → Sending
send_response m es =
    let s = stamped m in then_payload s.payload (send_all (encode_header s.header) es)
