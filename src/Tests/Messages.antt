-- ===== src/Tests/Messages.antt =====
-- A message of two bytes is sent in pieces and received in others.
use cs.Base.{ℕ, ◌≡◌, refl, true, some, List, [], ◌∷◌, ◌++◌, take, drop, arith}
use cs.Wire.{
  magic_number, Message, calculate_checksum, crc_bit, crc_bits, crc_bytes, to_bytes, encode_header,
  Received, chunk, interrupted, Sent, accepts, retry, stamped, send_all, send_response,
  receive_message,
}
use cs.Wire.Receive.{Accepted, receive_message-Accepted}
use cs.Wire.Pieces.{bytes_of, Open}
use cs.Wire.RoundTrip.{receive_message-send_response}

abbrev greeting : Message
greeting = record {
  header = record {
    magic = magic_number;
    msg_type = 3;
    msg_length = 2;
    sequence_num = 0;
    checksum = 0;
  };
  payload = b'h' ∷ b'i' ∷ [];
}

abbrev sends : List Sent
sends = accepts 10 ∷ retry ∷ accepts 100 ∷ accepts 100 ∷ []

abbrev sent : List ℕ
sent = (send_response greeting sends).1.0

went_out : send_response greeting sends ≡ (true, (sent, []))
unfolding send_response stamped send_all encode_header to_bytes calculate_checksum crc_bytes
    crc_bits crc_bit
went_out = refl

-- Eighteen bytes of the message and one of the next.
abbrev arrived : List Received
arrived = chunk (take 5 sent) ∷ interrupted ∷ chunk (drop 5 sent ++ (7 ∷ [])) ∷ []

delivered :
    (rest : List Received) × ((receive_message arrived ≡ some (stamped greeting, rest))
      × (Open rest × (bytes_of rest ≡ 7 ∷ [])))
unfolding send_response stamped send_all encode_header to_bytes calculate_checksum crc_bytes
    crc_bits crc_bit
delivered =
    receive_message-send_response greeting sends [] sent (7 ∷ []) arrived
      (omega arith, (omega arith, (refl, (refl, omega arith)))) went_out (refl, (refl, tt)) refl

receive_message-send_response_example :
    (rest : List Received) × ((receive_message arrived ≡ some (stamped greeting, rest))
      × (Open rest × (bytes_of rest ≡ 7 ∷ [])))
unfolding send_response stamped send_all encode_header to_bytes calculate_checksum crc_bytes
    crc_bits crc_bit
receive_message-send_response_example =
    receive_message-send_response greeting sends [] sent (7 ∷ []) arrived
      (omega arith, (omega arith, (refl, (refl, omega arith)))) went_out (refl, (refl, tt)) refl

receive_message-Accepted_example : Accepted (stamped greeting)
receive_message-Accepted_example =
    receive_message-Accepted arrived delivered.0 (stamped greeting) delivered.1.0
