-- ===== src/Relay/Config/Accepted.antt =====
-- What `fan_out` of sender.rs does with a configuration that `validate` of config.rs accepts.
use plugkill.Prelude.{
  ◌≢◌, ◌↔◌, option_eq, option_beq, some, Option-cases, inl, inr, text_eq→eq, is_empty, ℕ, suc, ◌≤◌,
  ◌≡◌, refl, sym, arith, Bool, true, false, ◌||◌, Option, List, [], ◌∷◌, ◌++◌, filter, contains,
  ◌==◌, list_eq, nat_eq, Text, ok, err, text_eq_refl, ◌>>=◌, ◌⊎◌, ◌∙◌, length, All, Bool-cases,
  Memᴰ, ap,
}
use mathlib.Core.List.{append_assoc, append-nil}
use plugkill.Relay.Listener.{PeerConfig, decode_pubkey}
use plugkill.Relay.Config.{
  RelayConfig, RetryConfig, Check, check_key_file, check_ranges, check_peer, check_peers,
  validate_relay,
}
use plugkill.Relay.Sender.{names, insert_peer, is_target, targets}
use plugkill.Relay.Sender.Accounts.{outcome, fan_out_accounts}
use plugkill.Relay.Sender.Answered.{decoded}

bind-ok : (c k : Check) → (c >>= λ u. k) ≡ ok tt → (c ≡ ok tt) × (k ≡ ok tt)
bind-ok (ok u) k h = (refl, h)
bind-ok (err e) k h = ground arith

insert_peer-new :
    (peer : PeerConfig) (pending : List PeerConfig)
    → contains (names pending) peer.name ≡ false
    → insert_peer peer pending ≡ pending ++ peer ∷ []
unfolding insert_peer contains
insert_peer-new peer [] h = refl
insert_peer-new peer (p ∷ pending) h =
    let rest = insert_peer-new peer pending (ground arith) in ground arith

names-append :
    (pending : List PeerConfig) (peer : PeerConfig) (n : Text)
    → contains (names (pending ++ peer ∷ [])) n ≡ (contains (names pending) n || (peer.name == n))
unfolding contains
names-append [] peer n = ground arith
names-append (p ∷ pending) peer n = ground (arith, names-append pending peer n)

-- No text stands in the list twice.
abbrev pub Distinct : List Text → Type 0
Distinct [] = Unit
Distinct (n ∷ rest) = (contains rest n ≡ false) × Distinct rest

module _ (base64_decode : Text → Option Text) (base64_error : Text → Text)
    (exclude_pubkey : Option Text) where
  abbrev wanted : PeerConfig → Bool
  wanted = is_target base64_decode exclude_pubkey

  targets_after :
      (peers pending : List PeerConfig) (seen : List Text)
      → check_peers base64_decode base64_error seen peers ≡ ok tt
      → ((n : Text) → contains (names pending) n ≡ true → contains seen n ≡ true)
      → targets base64_decode exclude_pubkey peers pending ≡ pending ++ filter wanted peers
  unfolding targets check_peers check_peer filter contains
  targets_after [] pending seen h known = sym (append-nil pending)
  targets_after (peer ∷ peers) pending seen h known =
      let (here, later) =
        bind-ok (check_peer base64_decode base64_error seen peer)
          (check_peers base64_decode base64_error (peer.name ∷ seen) peers) h in
      let known' = known peer.name in
      let new : contains (names pending) peer.name ≡ false = ground arith in
      elim (Bool-cases (wanted peer)) [
        | inl e ↦
            let rest =
              targets_after peers (pending ++ peer ∷ []) (peer.name ∷ seen) later
                (λ n c. let k = known n in ground (arith, names-append pending peer n)) in
            rw (e, insert_peer-new peer pending new)
              (rest ∙ append_assoc pending (peer ∷ []) (filter wanted peers))
        | inr e ↦
            let rest =
              targets_after peers pending (peer.name ∷ seen) later
                (λ n c. let k = known n c in ground arith) in
            rw e rest
      ]

  accepted :
      (config : RelayConfig)
      → validate_relay base64_decode base64_error config ≡ ok tt
      → (check_ranges config.general.poll_interval_ms config.retry ≡ ok tt)
        × (check_peers base64_decode base64_error [] config.peers ≡ ok tt)
  unfolding validate_relay
  accepted config h =
      let ranges = check_ranges config.general.poll_interval_ms config.retry in
      let (before, peers_ok) =
        bind-ok (check_key_file config.general.private_key_file >>= λ u. ranges)
          (check_peers base64_decode base64_error [] config.peers) h in
      ((bind-ok (check_key_file config.general.private_key_file) ranges before).1, peers_ok)

  max_retries_bound :
      (interval : ℕ) (retry : RetryConfig)
      → check_ranges interval retry ≡ ok tt
      → retry.max_retries ≤ 10
  unfolding check_ranges
  max_retries_bound interval retry h = ground arith

  -- A peer to send to: it has an address, and its key, as it is decoded, is not the excluded one.
  abbrev pub IsWanted : PeerConfig → Type 0
  IsWanted peer =
      (peer.addresses ≢ [])
      × ((key : Text)
          → exclude_pubkey ≡ some key
          → length key ≡ 32
          → base64_decode peer.pubkey ≢ some key)

  has_address : (l : List Text) → l ≢ [] → is_empty l ≡ false
  has_address [] h = absurd (h refl)
  has_address (a ∷ l) h = refl

  wanted-IsWanted : (peer : PeerConfig) → (wanted peer ≡ true) ↔ IsWanted peer
  unfolding is_target
  wanted-IsWanted peer = (
    λ w. (
      λ e. ground arith,
      λ key x l d.
          let same = text_eq_refl key in
          let excluded : (decode_pubkey base64_decode peer == some key) ≡ true =
            unfold decode_pubkey option_beq in ground arith in
          ground arith,
    ),
    λ (a, f). elim (Option-cases exclude_pubkey) [
      | inl x ↦ ground (arith, has_address peer.addresses a)
      | inr (key, x) ↦ elim (Bool-cases (decode_pubkey base64_decode peer == some key)) [
        | inr d ↦ ground (arith, has_address peer.addresses a)
        | inl d ↦ let (e, l) = decoded base64_decode peer key d in absurd (f key x l e)
      ]
    ],
  )

  mem-filter :
      (peers : List PeerConfig) (peer : PeerConfig)
      → Memᴰ peer (filter wanted peers) ↔ (Memᴰ peer peers × (wanted peer ≡ true))
  unfolding filter
  mem-filter [] peer = (λ m. elim m [ ], λ (m, w). m)
  mem-filter (p ∷ peers) peer = elim (Bool-cases (wanted p)) [
    | inl e ↦ rw e (
      λ m. elim m [
        | Memᴰ.head q ↦ (Memᴰ.head q, ap wanted q ∙ e)
        | Memᴰ.tail n ↦ let (k, w) = (mem-filter peers peer).0 n in (Memᴰ.tail k, w)
      ],
      λ (m, w). elim m [
        | Memᴰ.head q ↦ Memᴰ.head q
        | Memᴰ.tail n ↦ Memᴰ.tail ((mem-filter peers peer).1 (n, w))
      ],
    )
    | inr e ↦ rw e (
      λ m. let (n, w) = (mem-filter peers peer).0 m in (Memᴰ.tail n, w),
      λ (m, w). elim m [
        | Memᴰ.head q ↦ absurd (let u = ap wanted q in ground arith)
        | Memᴰ.tail n ↦ (mem-filter peers peer).1 (n, w)
      ],
    )
  ]

  accepted-Distinct :
      (peers : List PeerConfig) (seen : List Text)
      → check_peers base64_decode base64_error seen peers ≡ ok tt
      → Distinct (names (filter wanted peers))
        × ((n : Text) → contains seen n ≡ true → contains (names (filter wanted peers)) n ≡ false)
  unfolding check_peers check_peer filter contains
  accepted-Distinct [] seen h = (tt, λ n c. refl)
  accepted-Distinct (peer ∷ peers) seen h =
      let (here, later) =
        bind-ok (check_peer base64_decode base64_error seen peer)
          (check_peers base64_decode base64_error (peer.name ∷ seen) peers) h in
      let (distinct, fresh) = accepted-Distinct peers (peer.name ∷ seen) later in
      let own : contains (names (filter wanted peers)) peer.name ≡ false =
        fresh peer.name (ground (arith, text_eq_refl peer.name)) in
      let others : (n : Text)
          → contains seen n ≡ true
          → contains (names (filter wanted peers)) n ≡ false =
        λ n c. fresh n (ground arith) in
      elim (Bool-cases (wanted peer)) [
        | inr e ↦ rw e (distinct, others)
        | inl e ↦ rw e (
          (own, distinct),
          λ n c.
              let f = others n c in
              elim (Bool-cases (peer.name == n)) [
                | inr d ↦ ground arith
                | inl d ↦ let same = text_eq→eq peer.name n d in ground arith
              ],
        )
      ]

  -- With a configuration that `validate` accepts, the peers that `fan_out` sends to are those of the
  -- configuration that have an address and whose key is not the excluded one, and no two of them
  -- have the same name.
  pub accepted_targets :
      (config : RelayConfig)
      → validate_relay base64_decode base64_error config ≡ ok tt
      → let reached = targets base64_decode exclude_pubkey config.peers [] in
        ((peer : PeerConfig) → Memᴰ peer reached ↔ (Memᴰ peer config.peers × IsWanted peer))
        × Distinct (names reached)
  accepted_targets config h =
      let peers_ok = (accepted config h).1 in
      rw (targets_after config.peers [] [] peers_ok (λ n c. c)) (
        λ peer. (
          λ m. let (n, w) = (mem-filter config.peers peer).0 m in (n, (wanted-IsWanted peer).0 w),
          λ (n, w). (mem-filter config.peers peer).1 (n, (wanted-IsWanted peer).1 w),
        ),
        (accepted-Distinct config.peers [] peers_ok).0,
      )

  names-mem :
      (peers : List PeerConfig) (peer : PeerConfig)
      → Memᴰ peer peers
      → wanted peer ≡ true
      → contains (names (filter wanted peers)) peer.name ≡ true
  unfolding filter contains
  names-mem [] peer m w = elim m [ ]
  names-mem (p ∷ peers) peer (Memᴰ.head e) w =
      let here : wanted p ≡ true = ap wanted (sym e) ∙ w in
      rw (e, here) (ground (arith, text_eq_refl p.name))
  names-mem (p ∷ peers) peer (Memᴰ.tail m) w =
      let rest = names-mem peers peer m w in
      elim (Bool-cases (wanted p)) [ inl here ↦ ground arith | inr here ↦ ground arith ]

  -- With a configuration that `validate` accepts and a bound socket, each peer of the configuration
  -- that has an address and is not the excluded one is reported as acknowledged, or is reported as
  -- timed out after `max_retries + 1` blasts, eleven at most, each of which went to it.
  pub accepted_peer_accounted :
      (verify : Text → Text → Text → Bool) (hex_encode : Text → Text) (nonce : Text)
      (received : ℕ → List Text) (config : RelayConfig) (peer : PeerConfig)
      → validate_relay base64_decode base64_error config ≡ ok tt
      → Memᴰ peer config.peers
      → wanted peer ≡ true
      → let r =
          outcome base64_decode verify hex_encode nonce config.peers exclude_pubkey
            config.retry.max_retries received in
        (config.retry.max_retries ≤ 10)
        × ((contains r.acked peer.name ≡ true)
            ⊎ ((contains r.timed_out peer.name ≡ true)
                × (length r.blasts ≡ suc config.retry.max_retries)
                × All (λ blast. contains blast peer.name ≡ true) r.blasts))
  accepted_peer_accounted verify hex_encode nonce received config peer h m w =
      let known = names-mem config.peers peer m w in
      (
        max_retries_bound config.general.poll_interval_ms config.retry (accepted config h).0,
        fan_out_accounts base64_decode verify hex_encode nonce config.peers exclude_pubkey
            config.retry.max_retries received peer.name
            (rw (targets_after config.peers [] [] (accepted config h).1 (λ n c. c)) known),
      )
