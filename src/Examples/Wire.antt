-- ===== src/Examples/Wire.antt =====
-- The theorems on the selectors and on the relay, at concrete inputs.
use plugkill.Prelude.{
  ◌↔◌, ◌≤◌, ◌⊎◌, All, Memᴰ, ℕ, zero, suc, ◌≡◌, refl, Bool, true, Option, none, some, List, [], ◌∷◌,
  ◌++◌, arith, min, take, length, every, is_ascii_hexdigit, to_ascii_lowercase, list_eq, nat_eq,
  list_beq, option_beq, find_map, contains, any, Text, codes, Result, ok, err,
}
use plugkill.Allowances.{DeviceRef, usb, selector}
use plugkill.Allowances.Selector.{from_str}
use plugkill.Allowances.Selector.RoundTrip.{nameless, from_str-selector}
use plugkill.Relay.Utf8.{is_utf8}
use plugkill.Relay.Protocol.{kill, ack, Packet, message_of, serialize, deserialize}
use plugkill.Relay.Protocol.RoundTrip.{deserialize-serialize, cut_reason_refused}
use plugkill.Relay.Protocol.Bounds.{IsFramed, deserialize-IsFramed}
use plugkill.Relay.Listener.{NonceCache, PeerConfig, receive}
use plugkill.Relay.Listener.Replay.{run, replay_refused}
use plugkill.Relay.Trigger.{Answer}
use plugkill.Relay.Sender.{names, is_target, targets, fan_out}
use plugkill.Relay.Config.{RelayConfig, validate_relay}
use plugkill.Relay.Config.Accepted.{IsWanted, Distinct, accepted_targets, accepted_peer_accounted}
use plugkill.Relay.Sender.Accounts.{outcome}
use plugkill.Relay.Sender.Answered.{IsAckFrom, acked_has_answered}

abbrev stick : DeviceRef
stick = usb (record { vendor_id = codes "0781"; product_id = codes "5567" })

from_str-selector_example : from_str (selector stick) ≡ ok (nameless stick)
unfolding every is_ascii_hexdigit to_ascii_lowercase
from_str-selector_example =
    from_str-selector stick ((refl, omega arith, refl, refl), (refl, omega arith, refl, refl))

abbrev bytes : ℕ → ℕ → Text
bytes zero b = []
bytes (suc n) b = b ∷ bytes n b

abbrev zeros : Text → Text
zeros message = bytes 64 0

abbrev nonce : Text
nonce = bytes 16 7

abbrev key : Text
key = bytes 32 9

abbrev reason : Text
reason = codes "usb"

deserialize-serialize_example :
    deserialize (serialize zeros kill 1700000000 nonce key reason)
    ≡ ok (
      record {
        packet_type = kill;
        timestamp = 1700000000;
        nonce = nonce;
        sender_id = key;
        reason = take (min (length reason) 256) reason;
      },
      (
        message_of kill 1700000000 nonce key reason,
        zeros (message_of kill 1700000000 nonce key reason),
      ),
    )
unfolding is_utf8
deserialize-serialize_example =
    deserialize-serialize zeros kill 1700000000 nonce key reason (omega arith) refl refl (λ m. refl)
      refl

-- A character of two bytes across the cut.
abbrev long_reason : Text
long_reason = bytes 255 b'a' ++ (195 ∷ 169 ∷ [])

cut_reason_refused_example :
    deserialize (serialize zeros kill 1700000000 nonce key long_reason)
    ≡ err (codes "reason not valid UTF-8")
unfolding is_utf8
cut_reason_refused_example =
    cut_reason_refused zeros kill 1700000000 nonce key long_reason refl refl (λ m. refl) refl

abbrev packet : Packet
packet = record {
  packet_type = kill;
  timestamp = 100;
  nonce = nonce;
  sender_id = key;
  reason = reason;
}

abbrev datagram : Text
datagram = serialize zeros kill 100 nonce key reason

datagram-read :
    deserialize datagram ≡ ok (packet, (message_of kill 100 nonce key reason, bytes 64 0))
unfolding is_utf8
datagram-read =
    deserialize-serialize zeros kill 100 nonce key reason (omega arith) refl refl (λ m. refl) refl

deserialize-IsFramed_example :
    IsFramed datagram (packet, (message_of kill 100 nonce key reason, bytes 64 0))
deserialize-IsFramed_example = deserialize-IsFramed datagram _ datagram-read

abbrev peers : List PeerConfig
peers = record { name = codes "desk"; pubkey = key; addresses = [] } ∷ []

abbrev decode : Text → Option Text
decode t = some t

abbrev signed : Text → Text → Text → Bool
signed k m s = true

abbrev fresh : NonceCache
fresh = record { seen = [] }

accepted_first : (receive decode signed peers 103 fresh datagram).0 ≡ some packet
unfolding receive serialize list_beq option_beq find_map contains any
accepted_first = refl

replay_refused_example :
    (receive decode signed peers 104
      (run decode signed peers
        (receive decode signed peers 103 fresh datagram).1
        ((103, reason) ∷ []))
      datagram).0
    ≡ none
unfolding list_beq
replay_refused_example =
    replay_refused decode signed peers fresh 103 104 datagram datagram packet packet
      (message_of kill 100 nonce key reason, bytes 64 0) ((103, reason) ∷ []) accepted_first
      (omega arith) datagram-read refl

abbrev counted : ℕ → Result Answer
counted n = ok (record {
  ok_field = some true;
  error = none;
  status =
      some
        (record { armed = some true; mode = some (codes "enforce"); violations_logged = some n });
})

-- `hex::encode`, shortened.
abbrev hex : Text → Text
hex t = codes "07"

-- Two peers with an address, of which the second one answers in the second round.
abbrev near : PeerConfig
near = record { name = codes "near"; pubkey = bytes 32 4; addresses = codes "10.0.0.4:7654" ∷ [] }

abbrev far : PeerConfig
far = record { name = codes "far"; pubkey = key; addresses = codes "10.0.0.9:7654" ∷ [] }

abbrev answer : Text
answer = serialize zeros ack 100 (bytes 16 1) key (hex nonce)

abbrev heard : ℕ → List Text
heard zero = []
heard (suc zero) = datagram ∷ answer ∷ []
heard (suc (suc n)) = []

abbrev no_error : Text → Text
no_error t = codes "Invalid padding"

abbrev relay : RelayConfig
relay = record {
  general = record {
    listen_port = 7654;
    plugkill_socket = codes "/run/plugkill/plugkill.sock";
    poll_interval_ms = 250;
    private_key_file = some (codes "/etc/plugkill/relay.key");
  };
  retry = record { ack_timeout_ms = 50; max_retries = 2 };
  peers = near ∷ far ∷ [];
}

accepted_peer_accounted_example :
    (2 ≤ 10)
    × ((contains (outcome decode signed hex nonce relay.peers none 2 heard).acked (codes "near")
          ≡ true)
        ⊎ ((contains
                (outcome decode signed hex nonce relay.peers none 2 heard).timed_out
                (codes "near")
              ≡ true)
            × (length (outcome decode signed hex nonce relay.peers none 2 heard).blasts ≡ 3)
            × All
                (λ blast. contains blast (codes "near") ≡ true)
                (outcome decode signed hex nonce relay.peers none 2 heard).blasts))
unfolding contains any list_beq option_beq validate_relay is_target
accepted_peer_accounted_example =
    accepted_peer_accounted decode no_error none signed hex nonce heard relay near refl
      (Memᴰ.head refl) refl

accepted_targets_example :
    ((peer : PeerConfig)
      → Memᴰ peer (targets decode (some key) relay.peers [])
        ↔ (Memᴰ peer relay.peers × IsWanted decode no_error (some key) peer))
    × Distinct (names (targets decode (some key) relay.peers []))
unfolding contains any list_beq option_beq validate_relay
accepted_targets_example = accepted_targets decode no_error (some key) relay refl

acked_has_answered_example :
    (round : ℕ) × (got : Text) × (round ≤ 2)
    × Memᴰ got (heard round)
    × IsAckFrom decode signed hex nonce (near ∷ far ∷ []) (codes "far") got
unfolding contains list_beq option_beq fan_out serialize find_map
acked_has_answered_example =
    acked_has_answered decode signed hex nonce (near ∷ far ∷ []) none 2 heard (codes "far") refl
