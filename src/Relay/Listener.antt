-- ===== src/Relay/Listener.antt =====
-- crates/plugkill-relay/src/listener.rs: what one datagram does, `NonceCache` of crypto.rs, and of
-- config.rs a peer. The base64 decoder, the signature check and the clock are arguments.
pub mod Nonces
pub mod Replay
use plugkill.Prelude.{
  ℕ, ◌+◌, ◌-◌, Bool, true, false, not, Option, none, some, List, [], ◌∷◌, ◌++◌, ltb, leb, eqb,
  if◌then◌else◌, ◌==◌, nat_eq, list_eq, option_eq, option_beq, length, contains, find, Text, codes,
  Result, ok, err, drop,
}
use plugkill.Relay.Protocol.{Packet, PacketType, kill, ack, deserialize}

abbrev pub nonce_cache_size : ℕ
nonce_cache_size = 1000

-- The oldest nonce stands first.
pub record NonceCache : Type 0 where
  pub seen : List Text

-- `pop_front` where the cache is full
unfoldable pub make_room : List Text → List Text
make_room seen = if leb nonce_cache_size (length seen) then drop 1 seen else seen

unfoldable pub check_and_insert : NonceCache → Text → Bool × NonceCache
unfolding contains make_room
check_and_insert cache nonce =
    if contains cache.seen nonce
    then (true, cache)
    else (false, record { seen = make_room cache.seen ++ nonce ∷ [] })

pub record PeerConfig : Type 0 where
  pub name : Text
  pub pubkey : Text
  pub addresses : List Text

-- `base64_decode` is the standard base64 decoder.
unfoldable pub decode_pubkey : (Text → Option Text) → PeerConfig → Option Text
decode_pubkey base64_decode peer = elim (base64_decode peer.pubkey) [
  | none ↦ none
  | some bytes ↦ if eqb (length bytes) 32 then some bytes else none
]

abbrev pub timestamp_window_secs : ℕ
timestamp_window_secs = 5

-- `abs_diff`
unfoldable pub abs_diff : ℕ → ℕ → ℕ
abs_diff a b = if leb b a then a - b else b - a

unfoldable pub sender_of : (Text → Option Text) → List PeerConfig → Text → Option PeerConfig
unfolding decode_pubkey option_beq
sender_of base64_decode peers sender_id =
    find (λ p. decode_pubkey base64_decode p == some sender_id) peers

-- A packet of a known peer, behind `deserialize`.
unfoldable pub accept :
    (Text → Text → Text → Bool)
    → ℕ
    → NonceCache
    → Packet × (Text × Text)
    → Option Packet × NonceCache
unfolding abs_diff check_and_insert
accept verify now cache (packet, (msg_bytes, sig)) =
    if not (verify packet.sender_id msg_bytes sig)
    then (none, cache)
    else if ltb timestamp_window_secs (abs_diff now packet.timestamp)
    then (none, cache)
    else (let (seen, cache') = check_and_insert cache packet.nonce in
        (if seen then none else some packet, cache'))

-- The packet that the loop's body acts on, if any, and the cache afterwards.
unfoldable pub receive :
    (Text → Option Text)
    → (Text → Text → Text → Bool)
    → List PeerConfig
    → ℕ
    → NonceCache
    → Text
    → Option Packet × NonceCache
unfolding sender_of accept deserialize
receive base64_decode verify peers now cache bytes = elim (deserialize bytes) [
  | err reason ↦ (none, cache)
  | ok (packet, rest) ↦ elim (sender_of base64_decode peers packet.sender_id) [
    | none ↦ (none, cache)
    | some peer ↦ accept verify now cache (packet, rest)
  ]
]

-- What the listener does with the network and the daemon.
pub data Effect : Type 0 where
  send_ack : Text → Effect
  fan_out : Text → Text → Effect
  trigger_local_kill : Text → Effect

-- The body's end, on a packet that it acts on.
unfoldable pub act_on : Bool → Packet → List Effect
act_on dry_run packet = elim packet.packet_type [
  | ack ↦ []
  | kill ↦
      send_ack packet.nonce
      ∷ (if dry_run
          then []
          else fan_out (codes "relay:" ++ packet.reason) packet.sender_id
            ∷ trigger_local_kill packet.reason
            ∷ [])
]
