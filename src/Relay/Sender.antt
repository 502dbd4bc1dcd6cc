-- ===== src/Relay/Sender.antt =====
-- crates/plugkill-relay/src/sender.rs: `fan_out` and `check_ack`. The decoder, the signature check and
-- the hex encoder are packages; what the socket receives in each round, up to its deadline or a
-- read error, is an argument.
pub mod Accounts
pub mod Answered
use plugkill.Prelude.{
  ℕ, zero, suc, ◌+◌, Bool, true, false, not, ◌&&◌, Option, none, some, List, [], ◌∷◌, ◌++◌, map,
  filter, contains, if◌then◌else◌, ◌==◌, list_eq, nat_eq, option_eq, option_beq, Text, is_empty,
  Result, ok, err,
}
use plugkill.Relay.Protocol.{Packet, PacketType, kill, ack, deserialize}
use plugkill.Relay.Listener.{PeerConfig, decode_pubkey, sender_of}

module _ (base64_decode : Text → Option Text) (verify : Text → Text → Text → Bool)
    (hex_encode : Text → Text) where
  -- A packet of a known peer, behind `deserialize`.
  unfoldable pub ack_of : Text → PeerConfig → Packet × (Text × Text) → Option Text
  ack_of expected_nonce peer (packet, (msg_bytes, sig)) =
      if not (verify packet.sender_id msg_bytes sig)
      then none
      else if not (packet.reason == hex_encode expected_nonce)
      then none
      else some peer.name

  unfoldable pub check_ack : Text → List PeerConfig → Text → Option Text
  unfolding deserialize sender_of ack_of
  check_ack expected_nonce peers bytes = elim (deserialize bytes) [
    | err reason ↦ none
    | ok (packet, rest) ↦ elim packet.packet_type [
      | kill ↦ none
      | ack ↦ elim (sender_of base64_decode peers packet.sender_id) [
        | none ↦ none
        | some peer ↦ ack_of expected_nonce peer (packet, rest)
      ]
    ]
  ]

  -- The loop of a round: `acked` is a set of names.
  unfoldable pub collect : Text → List PeerConfig → List Text → List Text → List Text
  unfolding check_ack contains
  collect nonce peers [] acked = acked
  collect nonce peers (bytes ∷ more) acked = elim (check_ack nonce peers bytes) [
    | none ↦ collect nonce peers more acked
    | some name ↦
        collect nonce peers more (if contains acked name then acked else acked ++ name ∷ [])
  ]

-- `HashMap::insert` by the peer's name
unfoldable pub insert_peer : PeerConfig → List PeerConfig → List PeerConfig
insert_peer peer [] = peer ∷ []
insert_peer peer (p ∷ rest) =
    let others = insert_peer peer rest in if p.name == peer.name then peer ∷ rest else p ∷ others

-- The peers of the loop that fills `pending_peers`.
unfoldable pub is_target : (Text → Option Text) → Option Text → PeerConfig → Bool
unfolding decode_pubkey option_beq
is_target base64_decode exclude_pubkey peer =
    if is_empty peer.addresses then false else elim exclude_pubkey [
      | none ↦ true
      | some exclude ↦ not (decode_pubkey base64_decode peer == some exclude)
    ]

unfoldable pub targets :
    (Text → Option Text) → Option Text → List PeerConfig → List PeerConfig → List PeerConfig
unfolding is_target insert_peer
targets base64_decode exclude_pubkey [] pending = pending
targets base64_decode exclude_pubkey (peer ∷ peers) pending =
    targets base64_decode exclude_pubkey peers
      (if is_target base64_decode exclude_pubkey peer then insert_peer peer pending else pending)

abbrev pub names : List PeerConfig → List Text
names = map (λ (p : PeerConfig). p.name)

-- The names of the result, and who each blast went to.
pub record FanOut : Type 0 where
  pub acked : List Text
  pub timed_out : List Text
  pub blasts : List (List Text)

-- `pending_peers.remove` for every acknowledged name
unfoldable pub still_pending : List Text → List PeerConfig → List PeerConfig
unfolding filter contains
still_pending acked = filter (λ (p : PeerConfig). not (contains acked p.name))

-- The rounds from `retry` on, with `left` of them behind this one.
unfoldable pub rounds :
    (List Text → List Text → List Text)
    → (ℕ → List Text)
    → ℕ
    → ℕ
    → List Text
    → List PeerConfig
    → FanOut
unfolding still_pending
rounds collect received zero retry acked pending =
    let acked' = collect (received retry) acked in
    record { acked = acked'; timed_out = names (still_pending acked' pending); blasts = [] }
rounds collect received (suc left) retry acked pending =
    let acked' = collect (received retry) acked in
    let pending' = still_pending acked' pending in
    let rest = rounds collect received left (suc retry) acked' pending' in
    if is_empty pending'
    then record { acked = acked'; timed_out = []; blasts = [] }
    else record rest { blasts = names pending' ∷ rest.blasts }

-- What `fan_out` does and reports; `bound` says whether the socket could be bound.
unfoldable pub fan_out :
    (Text → Option Text)
    → (Text → Text → Text → Bool)
    → (Text → Text)
    → List PeerConfig
    → Option Text
    → Text
    → ℕ
    → Bool
    → (ℕ → List Text)
    → FanOut
unfolding targets collect rounds
fan_out base64_decode verify hex_encode peers exclude_pubkey nonce max_retries bound received =
    let pending = targets base64_decode exclude_pubkey peers [] in
    if not bound
    then record { acked = []; timed_out = names peers; blasts = [] }
    else if is_empty pending
    then record { acked = []; timed_out = []; blasts = [] }
    else let acks = collect base64_decode verify hex_encode nonce peers in
      let result = rounds acks received max_retries 0 [] pending in
      record result { blasts = names pending ∷ result.blasts }
