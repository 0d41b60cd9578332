-- ===== src/Wire/Bytes.antt =====
-- The bytes of a header, and the header that they are read back as.
use cs.Base.{ℕ, ◌<◌, ◌≡◌, refl, length, arith}
use cs.Wire.{MessageHeader, to_bytes, from_bytes, encode_header, decode_header, header_size}

-- The fields fit into their sizes.
pub record Fits (h : MessageHeader) : Type 0 where
  pub magic : h.magic < 65536
  pub msg_type : h.msg_type < 65536
  pub msg_length : h.msg_length < 4294967296
  pub sequence_num : h.sequence_num < 4294967296
  pub checksum : h.checksum < 4294967296

two_bytes : (n : ℕ) → n < 65536 → from_bytes (to_bytes 2 n) ≡ n
unfolding from_bytes to_bytes
two_bytes n h = omega arith

four_bytes : (n : ℕ) → n < 4294967296 → from_bytes (to_bytes 4 n) ≡ n
unfolding from_bytes to_bytes
four_bytes n h = omega arith

pub decode_header-encode_header : (h : MessageHeader) → Fits h → decode_header (encode_header h) ≡ h
unfolding encode_header decode_header to_bytes from_bytes
decode_header-encode_header h f = ground (
  arith,
  two_bytes h.magic f.magic,
  two_bytes h.msg_type f.msg_type,
  four_bytes h.msg_length f.msg_length,
  four_bytes h.sequence_num f.sequence_num,
  four_bytes h.checksum f.checksum,
)

pub length-encode_header : (h : MessageHeader) → length (encode_header h) ≡ header_size
unfolding encode_header to_bytes
length-encode_header h = refl
