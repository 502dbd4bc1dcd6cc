-- ===== src/Relay/Sender/Accounts.antt =====
-- Whom `fan_out` reports as timed out, and how often it has sent to them.
use plugkill.Prelude.{
  option_eq, ℕ, zero, suc, ◌≡◌, refl, arith, Bool, true, false, not, ◌&&◌, Option, List, [], ◌∷◌,
  ◌++◌, filter, contains, contains-append, if◌then◌else◌, ◌==◌, list_eq, nat_eq, Text, ◌⊎◌,
  is_empty, length, All, Bool-cases, Option-cases, inl, inr, text_eq→eq, ap,
}
use plugkill.Relay.Listener.{PeerConfig}
use plugkill.Relay.Sender.{
  check_ack, collect, names, FanOut, still_pending, rounds, targets, fan_out,
}

names-still_pending :
    (acked : List Text) (pending : List PeerConfig) (n : Text)
    → contains (names (still_pending acked pending)) n
      ≡ (contains (names pending) n && not (contains acked n))
unfolding still_pending filter contains
names-still_pending acked [] n = refl
names-still_pending acked (p ∷ pending) n = elim (Bool-cases (p.name == n)) [
  | inl e ↦
      let same : contains acked p.name ≡ contains acked n =
        ap (contains acked) (text_eq→eq p.name n e) in
      ground (arith, names-still_pending acked pending n)
  | inr e ↦ ground (arith, names-still_pending acked pending n)
]

-- A round that only adds to the acknowledged names.
abbrev Grows : (List Text → List Text → List Text) → Type 0
Grows collect =
    (bytes acked : List Text) (n : Text)
    → contains acked n ≡ true
    → contains (collect bytes acked) n ≡ true

empty_names :
    (pending : List PeerConfig) (n : Text)
    → is_empty pending ≡ true
    → contains (names pending) n ≡ false
unfolding contains
empty_names [] n h = refl
empty_names (p ∷ pending) n h = ground arith

module _ (collect : List Text → List Text → List Text) (received : ℕ → List Text)
    (grows : Grows collect) where
  rounds-grow :
      (left retry : ℕ) (acked : List Text) (pending : List PeerConfig) (n : Text)
      → contains acked n ≡ true
      → contains (rounds collect received left retry acked pending).acked n ≡ true
  unfolding rounds
  rounds-grow zero retry acked pending n h = grows (received retry) acked n h
  rounds-grow (suc left) retry acked pending n h =
      let acked' = collect (received retry) acked in
      let here = grows (received retry) acked n h in
      let later = rounds-grow left (suc retry) acked' (still_pending acked' pending) n here in
      ground arith

  -- A pending peer has timed out exactly when it is not among the acknowledged.
  timed_out_rounds :
      (left retry : ℕ) (acked : List Text) (pending : List PeerConfig) (n : Text)
      → let r = rounds collect received left retry acked pending in
        contains r.timed_out n ≡ (contains (names pending) n && not (contains r.acked n))
  unfolding rounds
  timed_out_rounds zero retry acked pending n =
      names-still_pending (collect (received retry) acked) pending n
  timed_out_rounds (suc left) retry acked pending n =
      let acked' = collect (received retry) acked in
      let pending' = still_pending acked' pending in
      let kept = names-still_pending acked' pending n in
      let none_left = empty_names pending' n in
      let later = timed_out_rounds left (suc retry) acked' pending' n in
      let grow = rounds-grow left (suc retry) acked' pending' n in
      elim (Bool-cases (is_empty pending')) [
        | inl e ↦ let gone = none_left e in unfold contains in ground arith
        | inr e ↦ elim (Bool-cases (contains acked' n)) [
          | inl a ↦ let g = grow a in ground arith
          | inr a ↦ ground arith
        ]
      ]

  -- A peer that has timed out was sent to in every round.
  blasts_rounds :
      (left retry : ℕ) (acked : List Text) (pending : List PeerConfig) (n : Text)
      → contains (rounds collect received left retry acked pending).timed_out n ≡ true
      → (length (rounds collect received left retry acked pending).blasts ≡ left)
        × All
            (λ blast. contains blast n ≡ true)
            (rounds collect received left retry acked pending).blasts
  unfolding rounds
  blasts_rounds zero retry acked pending n h = (refl, tt)
  blasts_rounds (suc left) retry acked pending n h =
      let acked' = collect (received retry) acked in
      let pending' = still_pending acked' pending in
      let out = timed_out_rounds left (suc retry) acked' pending' n in
      elim (Bool-cases (is_empty pending')) [
        | inl e ↦ unfold contains in ground arith
        | inr e ↦
            let late : contains (rounds collect received left (suc retry) acked' pending').timed_out
                  n
                ≡ true =
              ground arith in
            let later = blasts_rounds left (suc retry) acked' pending' n late in
            rw (e, rounds) (ground (arith, later.0), (ground arith, later.1))
      ]

-- What `HashSet::insert` of a name leaves.
abbrev pub grown : Text → List Text → List Text
grown name acked = if contains acked name then acked else acked ++ name ∷ []

module _ (base64_decode : Text → Option Text) (verify : Text → Text → Text → Bool)
    (hex_encode : Text → Text) (nonce : Text) (peers : List PeerConfig) where
  abbrev acks : List Text → List Text → List Text
  acks = collect base64_decode verify hex_encode nonce peers

  grown-keeps :
      (name : Text) (acked : List Text) (n : Text)
      → contains acked n ≡ true
      → contains (grown name acked) n ≡ true
  grown-keeps name acked n h = ground (arith, contains-append acked (name ∷ []) n)

  collect-Grows : Grows acks
  unfolding collect
  collect-Grows [] acked n h = h
  collect-Grows (bytes ∷ more) acked n h =
      elim (Option-cases (check_ack base64_decode verify hex_encode nonce peers bytes)) [
        | inl e ↦ let rest = collect-Grows more acked n h in ground arith
        | inr (name, e) ↦
            let rest = collect-Grows more (grown name acked) n (grown-keeps name acked n h) in
            ground arith
      ]

  module _ (exclude_pubkey : Option Text) (max_retries : ℕ) (received : ℕ → List Text) where
    abbrev pub outcome : FanOut
    outcome =
        fan_out base64_decode verify hex_encode peers exclude_pubkey nonce max_retries true received

    abbrev pub reached : List PeerConfig
    reached = targets base64_decode exclude_pubkey peers []

    -- Where the socket is bound, a peer that has an address and is not the excluded one is either
    -- reported as acknowledged, or reported as timed out after `max_retries + 1` blasts, each of
    -- which went to it.
    pub fan_out_accounts :
        (n : Text)
        → contains (names reached) n ≡ true
        → (contains outcome.acked n ≡ true)
          ⊎ ((contains outcome.timed_out n ≡ true)
              × (length outcome.blasts ≡ suc max_retries)
              × All (λ blast. contains blast n ≡ true) outcome.blasts)
    unfolding fan_out
    fan_out_accounts n h = elim (Bool-cases (is_empty reached)) [
      | inl e ↦ absurd (ground (arith, empty_names reached n e))
      | inr e ↦
          let r = rounds acks received max_retries 0 [] reached in
          let same : outcome ≡ record r { blasts = names reached ∷ r.blasts } =
            unfold fan_out in rw e refl in
          rw same (elim (Bool-cases (contains r.acked n)) [
            | inl a ↦ inl a
            | inr a ↦
                let late : contains r.timed_out n ≡ true = ground (
                  arith,
                  timed_out_rounds acks received collect-Grows max_retries 0 [] reached n,
                ) in
                let (count, all) =
                  blasts_rounds acks received collect-Grows max_retries 0 [] reached n late in
                inr (late, ground (arith, count), (h, all))
          ])
    ]
