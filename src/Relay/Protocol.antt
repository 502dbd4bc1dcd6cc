-- ===== src/Relay/Protocol.antt =====
-- crates/plugkill-relay/src/protocol.rs: datagrams. A byte string is a list of numbers below 256.
pub mod Layout
pub mod RoundTrip
pub mod Bounds
use plugkill.Prelude.{
  ℕ, zero, suc, ◌+◌, ◌*◌, ◌/◌, ◌%◌, min, Bool, not, Option, none, some, List, [], ◌∷◌, ◌++◌, ltb,
  eqb, if◌then◌else◌, ◌==◌, nat_eq, list_eq, list_beq, length, take, drop, Text, codes, Result, ok,
  err,
}
use plugkill.Relay.Utf8.{is_utf8}

abbrev pub magic : Text
magic = codes "PKRL"

abbrev pub version : ℕ
version = 1

abbrev pub header_size : ℕ
header_size = 64

abbrev pub signature_size : ℕ
signature_size = 64

abbrev pub max_reason_len : ℕ
max_reason_len = 256

abbrev pub min_packet_size : ℕ
min_packet_size = 128

abbrev pub max_packet_size : ℕ
max_packet_size = 384

pub data PacketType : Type 0 where
  kill ack : PacketType

-- `packet_type as u8`
unfoldable pub type_byte : PacketType → ℕ
type_byte kill = 1
type_byte ack = 2

unfoldable pub from_byte : ℕ → Option PacketType
from_byte b = if eqb b 1 then some kill else if eqb b 2 then some ack else none

pub record Packet : Type 0 where
  pub packet_type : PacketType
  pub timestamp : ℕ
  pub nonce : Text
  pub sender_id : Text
  pub reason : Text

-- `to_be_bytes` of a number of `k` bytes, and `from_be_bytes`.
unfoldable pub to_be_bytes : ℕ → ℕ → Text
to_be_bytes zero n = []
to_be_bytes (suc k) n = to_be_bytes k (n / 256) ++ ((n % 256) ∷ [])

unfoldable pub from_be_bytes : ℕ → Text → ℕ
from_be_bytes acc [] = acc
from_be_bytes acc (b ∷ s) = from_be_bytes (acc * 256 + b) s

-- `data[from..from + len]`
abbrev pub slice : ℕ → ℕ → Text → Text
slice from len bytes = take len (drop from bytes)

-- What `serialize` signs.
unfoldable pub message_of : PacketType → ℕ → Text → Text → Text → Text
unfolding to_be_bytes type_byte
message_of packet_type timestamp nonce sender_pubkey reason =
    let reason_len = min (length reason) max_reason_len in
    magic
    ++ (version
        ∷ type_byte packet_type
        ∷ (to_be_bytes 8 timestamp
            ++ (nonce ++ (sender_pubkey ++ (to_be_bytes 2 reason_len ++ take reason_len reason)))))

unfoldable pub serialize : (Text → Text) → PacketType → ℕ → Text → Text → Text → Text
unfolding message_of
serialize sign_fn packet_type timestamp nonce sender_pubkey reason =
    let buf = message_of packet_type timestamp nonce sender_pubkey reason in buf ++ sign_fn buf

-- `deserialize` behind the checks of the header, on the reason's length.
unfoldable pub read_reason : PacketType → ℕ → Text → Result (Packet × (Text × Text))
unfolding is_utf8 from_be_bytes
read_reason packet_type reason_len bytes =
    if ltb max_reason_len reason_len
    then err (codes "reason too long")
    else if ltb (length bytes) (header_size + reason_len + signature_size)
    then err (codes "packet truncated")
    else if not (is_utf8 (slice header_size reason_len bytes))
    then err (codes "reason not valid UTF-8")
    else ok (
      record {
        packet_type = packet_type;
        timestamp = from_be_bytes 0 (slice 6 8 bytes);
        nonce = slice 14 16 bytes;
        sender_id = slice 30 32 bytes;
        reason = slice header_size reason_len bytes;
      },
      (
        take (header_size + reason_len) bytes,
        slice (header_size + reason_len) signature_size bytes,
      ),
    )

abbrev pub byte_at : ℕ → Text → ℕ
byte_at i bytes = from_be_bytes 0 (slice i 1 bytes)

unfoldable pub deserialize : Text → Result (Packet × (Text × Text))
unfolding read_reason from_byte from_be_bytes
deserialize bytes =
    if ltb (length bytes) min_packet_size
    then err (codes "packet too short")
    else if not (take 4 bytes == magic)
    then err (codes "invalid magic")
    else if not (eqb (byte_at 4 bytes) version)
    then err (codes "unknown version")
    else elim (from_byte (byte_at 5 bytes)) [
      | none ↦ err (codes "unknown packet type")
      | some packet_type ↦ read_reason packet_type (from_be_bytes 0 (slice 62 2 bytes)) bytes
    ]
