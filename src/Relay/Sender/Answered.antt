-- ===== src/Relay/Sender/Answered.antt =====
-- What stands behind a name that `fan_out` reports as acknowledged.
use plugkill.Prelude.{
  none, option_eq, option_beq, eqb, find, find_map-some, sym, Result-cases, ok, ℕ, zero, suc, ◌+◌,
  ◌≤◌, ◌≡◌, refl, arith, Bool, true, Option, some, List, [], ◌∷◌, contains, contains-append,
  if◌then◌else◌, ◌==◌, list_eq, nat_eq, Text, ◌⊎◌, ◌∙◌, is_empty, length, Bool-cases, Option-cases,
  inl, inr, text_eq→eq, Memᴰ, ap,
}
use plugkill.Relay.Protocol.{Packet, ack, deserialize}
use plugkill.Relay.Listener.{PeerConfig, decode_pubkey, sender_of}
use plugkill.Relay.Sender.{
  ack_of, check_ack, collect, FanOut, still_pending, rounds, targets, fan_out,
}
use plugkill.Relay.Sender.Accounts.{grown, outcome}

-- A key that is decoded is the whole of what the decoder gives.
pub decoded :
    (base64_decode : Text → Option Text) (peer : PeerConfig) (key : Text)
    → (decode_pubkey base64_decode peer == some key) ≡ true
    → (base64_decode peer.pubkey ≡ some key) × (length key ≡ 32)
unfolding decode_pubkey option_beq
decoded base64_decode peer key h = elim (Option-cases (base64_decode peer.pubkey)) [
  | inl e ↦ ground arith
  | inr (bytes, e) ↦ elim (Bool-cases (eqb (length bytes) 32)) [
    | inr f ↦ ground arith
    | inl f ↦
        let same : bytes ≡ key = text_eq→eq bytes key (ground arith) in
        (e ∙ ap some same, (ap length (sym same) ∙ ground arith))
  ]
]

module _ (base64_decode : Text → Option Text) (verify : Text → Text → Text → Bool)
    (hex_encode : Text → Text) (nonce : Text) (peers : List PeerConfig) where
  abbrev acks : List Text → List Text → List Text
  acks = collect base64_decode verify hex_encode nonce peers

  abbrev answers : Text → Option Text
  answers = check_ack base64_decode verify hex_encode nonce peers

  grown_from :
      (name : Text) (acked : List Text) (n : Text)
      → contains (grown name acked) n ≡ true
      → (contains acked n ≡ true) ⊎ (name ≡ n)
  unfolding contains
  grown_from name acked n h = elim (Bool-cases (contains acked n)) [
    | inl e ↦ inl e
    | inr e ↦ inr (text_eq→eq name n (ground (arith, contains-append acked (name ∷ []) n)))
  ]

  collect_from :
      (received acked : List Text) (n : Text)
      → contains (acks received acked) n ≡ true
      → (contains acked n ≡ true)
        ⊎ ((bytes : Text) × Memᴰ bytes received × (answers bytes ≡ some n))
  unfolding collect
  collect_from [] acked n h = inl h
  collect_from (bytes ∷ more) acked n h = elim (Option-cases (answers bytes)) [
    | inl e ↦ elim (collect_from more acked n (ground arith)) [
      | inl c ↦ inl c
      | inr (b, m, a) ↦ inr (b, Memᴰ.tail m, a)
    ]
    | inr (name, e) ↦ elim (collect_from more (grown name acked) n (ground arith)) [
      | inr (b, m, a) ↦ inr (b, Memᴰ.tail m, a)
      | inl c ↦ elim (grown_from name acked n c) [
        | inl k ↦ inl k
        | inr same ↦ inr (bytes, Memᴰ.head refl, e ∙ ap some same)
      ]
    ]
  ]

  rounds_from :
      (received : ℕ → List Text) (left retry : ℕ) (acked : List Text) (pending : List PeerConfig)
      (n : Text)
      → contains (rounds acks received left retry acked pending).acked n ≡ true
      → (contains acked n ≡ true)
        ⊎ ((round : ℕ) × (bytes : Text) × (retry ≤ round)
            × (round ≤ retry + left)
            × Memᴰ bytes (received round)
            × (answers bytes ≡ some n))
  unfolding rounds
  rounds_from received zero retry acked pending n h =
      elim (collect_from (received retry) acked n h) [
        | inl c ↦ inl c
        | inr (b, m, a) ↦ inr (retry, b, omega arith, omega arith, m, a)
      ]
  rounds_from received (suc left) retry acked pending n h =
      let acked' = acks (received retry) acked in
      let pending' = still_pending acked' pending in
      let rest = rounds acks received left (suc retry) acked' pending' in
      let either : (contains acked' n ≡ true) ⊎ (contains rest.acked n ≡ true) =
        elim (Bool-cases (is_empty pending')) [
          | inl e ↦ inl (ground arith)
          | inr e ↦ inr (ground arith)
        ] in
      elim either [
        | inl c ↦ this_round c
        | inr c ↦ elim (rounds_from received left (suc retry) acked' pending' n c) [
          | inl k ↦ this_round k
          | inr (round, b, l, u, m, a) ↦ inr (round, b, omega (arith, l), omega (arith, u), m, a)
        ]
      ]
    where
      this_round :
          contains (acks (received retry) acked) n ≡ true
          → (contains acked n ≡ true)
            ⊎ ((round : ℕ) × (bytes : Text) × (retry ≤ round)
                × (round ≤ retry + suc left)
                × Memᴰ bytes (received round)
                × (answers bytes ≡ some n))
      this_round c = elim (collect_from (received retry) acked n c) [
        | inl k ↦ inl k
        | inr (b, m, a) ↦ inr (retry, b, omega arith, omega arith, m, a)
      ]

  -- A datagram that a peer of this name has signed and that acknowledges the nonce.
  abbrev pub IsAckFrom : Text → Text → Type 0
  IsAckFrom name bytes =
      (peer : PeerConfig) × (packet : Packet) × (signed_bytes : Text) × (signature : Text) × Memᴰ
        peer peers
      × (peer.name ≡ name)
      × (base64_decode peer.pubkey ≡ some packet.sender_id)
      × (length packet.sender_id ≡ 32)
      × (deserialize bytes ≡ ok (packet, (signed_bytes, signature)))
      × (packet.packet_type ≡ ack)
      × (verify packet.sender_id signed_bytes signature ≡ true)
      × (packet.reason ≡ hex_encode nonce)

  find_sound :
      (p : PeerConfig → Bool) (l : List PeerConfig) (peer : PeerConfig)
      → find p l ≡ some peer
      → Memᴰ peer l × (p peer ≡ true)
  find_sound p l peer h =
      let (x, m, q) = find_map-some (λ y. if p y then some y else none) l h in
      elim (Bool-cases (p x)) [
        | inr f ↦ ground arith
        | inl f ↦ let same : x ≡ peer = ground arith in (rw (sym same) m, ap p (sym same) ∙ f)
      ]

  answers-IsAckFrom : (bytes name : Text) → answers bytes ≡ some name → IsAckFrom name bytes
  unfolding check_ack ack_of sender_of
  answers-IsAckFrom bytes name h = elim (Result-cases (deserialize bytes)) [
    | inl (reason, e) ↦ ground arith
    | inr ((packet, (signed_bytes, signature)), e) ↦
        elim (Option-cases (sender_of base64_decode peers packet.sender_id)) [
          | inl f ↦ ground arith
          | inr (peer, f) ↦
              let (m, p) =
                find_sound (λ q. decode_pubkey base64_decode q == some packet.sender_id) peers peer
                  f in
              let (key, long) = decoded base64_decode peer packet.sender_id p in
              let typed : packet.packet_type ≡ ack = ground arith in
              let verified : verify packet.sender_id signed_bytes signature ≡ true = ground arith in
              let quoted : (packet.reason == hex_encode nonce) ≡ true = ground arith in
              let named : peer.name ≡ name = ground arith in
              (
                peer,
                packet,
                signed_bytes,
                signature,
                m,
                named,
                key,
                long,
                e,
                typed,
                verified,
                text_eq→eq packet.reason (hex_encode nonce) quoted,
              )
        ]
  ]

  module _ (exclude_pubkey : Option Text) (max_retries : ℕ) (received : ℕ → List Text) where
    abbrev result : FanOut
    result = outcome base64_decode verify hex_encode nonce peers exclude_pubkey max_retries received

    abbrev sent_to : List PeerConfig
    sent_to = targets base64_decode exclude_pubkey peers []

    -- A name that is reported as acknowledged is that of a configured peer that has answered: in one
    -- of the rounds the socket received a datagram that reads as an acknowledgement from that peer's
    -- key, with a signature that the key verifies and the nonce's hex for its reason.
    pub acked_has_answered :
        (n : Text)
        → contains result.acked n ≡ true
        → (round : ℕ) × (bytes : Text) × (round ≤ max_retries)
          × Memᴰ bytes (received round)
          × IsAckFrom n bytes
    acked_has_answered n h = elim (Bool-cases (is_empty sent_to)) [
      | inl e ↦ absurd (unfold fan_out contains in ground arith)
      | inr e ↦
          let r = rounds acks received max_retries 0 [] sent_to in
          let same : result.acked ≡ r.acked = unfold fan_out in rw e refl in
          let c : contains r.acked n ≡ true = rw⁻¹ same h in
          elim (rounds_from received max_retries 0 [] sent_to n c) [
            | inl k ↦ absurd (unfold contains in ground arith)
            | inr (round, b, l, u, m, a) ↦ (round, b, omega (arith, u), m, answers-IsAckFrom b n a)
          ]
    ]
