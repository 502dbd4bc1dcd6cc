-- ===== src/Relay/Listener/Replay.antt =====
-- A packet that was acted on is not acted on again, and only signed packets of peers enter the cache.
use plugkill.Prelude.{
  ℕ, suc, ◌+◌, ◌<◌, ◌≡◌, ◌⊎◌, Bool, true, false, Option, none, some, List, [], ◌∷◌, arith, ◌==◌,
  nat_eq, list_eq, ltb, length, contains_congr, Text, ok, Bool-cases, Option-cases, Result-cases,
  inl, inr,
}
use plugkill.Relay.Protocol.{Packet, deserialize}
use plugkill.Relay.Listener.{
  NonceCache, PeerConfig, check_and_insert, sender_of, accept, receive, abs_diff,
}
use plugkill.Relay.Listener.Nonces.{
  IsRecent, IsRecent-contains, IsRecent-more, inserted-IsRecent, insert-IsRecent,
}

-- What the checks before the cache let through.
check_seen :
    (c : NonceCache) (n m : Text) (k : ℕ)
    → IsRecent n k c.seen
    → (n == m) ≡ true
    → (check_and_insert c m).0 ≡ true
unfolding check_and_insert
check_seen c n m k r e = ground (arith, IsRecent-contains n k c.seen r, contains_congr c.seen n m e)

accept-IsRecent :
    (verify : Text → Text → Text → Bool) (now : ℕ) (c : NonceCache) (p : Packet × (Text × Text))
    (n : Text) (k : ℕ)
    → k < 999
    → IsRecent n k c.seen
    → IsRecent n (suc k) (accept verify now c p).1.seen
unfolding accept
accept-IsRecent verify now c (p, (m, s)) n k l r = elim (Bool-cases (verify p.sender_id m s)) [
  | inr e ↦ rw e (IsRecent-more n k (suc k) c.seen (omega arith) r)
  | inl e ↦ elim (Bool-cases (ltb 5 (abs_diff now p.timestamp))) [
    | inl f ↦ rw (e, f) (IsRecent-more n k (suc k) c.seen (omega arith) r)
    | inr f ↦ rw (e, f) (insert-IsRecent c n p.nonce k l r)
  ]
]

accepted-IsRecent :
    (verify : Text → Text → Text → Bool) (now : ℕ) (c : NonceCache) (p : Packet × (Text × Text))
    (q : Packet)
    → (accept verify now c p).0 ≡ some q
    → (q ≡ p.0) × IsRecent p.0.nonce 0 (accept verify now c p).1.seen
unfolding accept
accepted-IsRecent verify now c (p, (m, s)) q h = elim (Bool-cases (verify p.sender_id m s)) [
  | inr e ↦ ground arith
  | inl e ↦ elim (Bool-cases (ltb 5 (abs_diff now p.timestamp))) [
    | inl f ↦ ground arith
    | inr f ↦
        let fresh : (check_and_insert c p.nonce).0 ≡ false = ground arith in
        rw (e, f) (ground arith, inserted-IsRecent c p.nonce fresh)
  ]
]

accept_seen :
    (verify : Text → Text → Text → Bool) (now : ℕ) (c : NonceCache) (p : Packet × (Text × Text))
    → (check_and_insert c p.0.nonce).0 ≡ true
    → (accept verify now c p).0 ≡ none
unfolding accept
accept_seen verify now c (p, (m, s)) h = ground arith

module _ (base64_decode : Text → Option Text) (verify : Text → Text → Text → Bool)
    (peers : List PeerConfig) where
  -- The cache after datagrams, each with the clock at its receipt.
  abbrev pub run : NonceCache → List (ℕ × Text) → NonceCache
  run c [] = c
  run c ((now, bytes) ∷ later) = run (receive base64_decode verify peers now c bytes).1 later

  -- A datagram either changes nothing or is put before the cache.
  receive_cases :
      (now : ℕ) (c : NonceCache) (bytes : Text)
      → (receive base64_decode verify peers now c bytes ≡ (none, c))
        ⊎ ((p : Packet × (Text × Text)) × ((deserialize bytes ≡ ok p)
              × (receive base64_decode verify peers now c bytes ≡ accept verify now c p)))
  unfolding receive
  receive_cases now c bytes = elim (Result-cases (deserialize bytes)) [
    | inl (e, d) ↦ inl (ground arith)
    | inr ((p, rest), d) ↦ elim (Option-cases (sender_of base64_decode peers p.sender_id)) [
      | inl f ↦ inl (ground arith)
      | inr (peer, f) ↦ inr ((p, rest), (d, ground arith))
    ]
  ]

  receive-IsRecent :
      (now : ℕ) (c : NonceCache) (bytes : Text) (n : Text) (k : ℕ)
      → k < 999
      → IsRecent n k c.seen
      → IsRecent n (suc k) (receive base64_decode verify peers now c bytes).1.seen
  receive-IsRecent now c bytes n k l r = elim (receive_cases now c bytes) [
    | inl e ↦ rw e (IsRecent-more n k (suc k) c.seen (omega arith) r)
    | inr (p, (d, e)) ↦ rw e (accept-IsRecent verify now c p n k l r)
  ]

  run-IsRecent :
      (c : NonceCache) (later : List (ℕ × Text)) (n : Text) (k : ℕ)
      → k + length later < 1000
      → IsRecent n k c.seen
      → IsRecent n (k + length later) (run c later).seen
  run-IsRecent c [] n k l r = IsRecent-more n k (k + 0) c.seen (omega arith) r
  run-IsRecent c ((now, bytes) ∷ later) n k l r =
      let r' = receive-IsRecent now c bytes n k (omega arith) r in
      let c' = (receive base64_decode verify peers now c bytes).1 in
      IsRecent-more n (suc k + length later) (k + suc (length later)) (run c' later).seen
        (omega arith) (run-IsRecent c' later n (suc k) (omega arith) r')

  -- Once the listener has acted on a packet, it acts on no datagram with the same nonce, a copy of it
  -- or another, for the next thousand datagrams at least.
  pub replay_refused :
      (c : NonceCache) (now later : ℕ) (bytes again : Text) (p q : Packet) (rest : Text × Text)
      (between : List (ℕ × Text))
      → (receive base64_decode verify peers now c bytes).0 ≡ some p
      → length between < 1000
      → deserialize again ≡ ok (q, rest)
      → (p.nonce == q.nonce) ≡ true
      → (receive base64_decode verify peers later
          (run (receive base64_decode verify peers now c bytes).1 between)
          again).0
        ≡ none
  replay_refused c now later bytes again p q rest between h l d e =
      let c1 = (receive base64_decode verify peers now c bytes).1 in
      let c2 = run c1 between in
      let first : IsRecent p.nonce 0 c1.seen = elim (receive_cases now c bytes) [
        | inl f ↦ ground arith
        | inr (p', (d', f)) ↦
            let (same, r) = accepted-IsRecent verify now c p' p (ground arith) in rw (f, same) r
      ] in
      let kept = run-IsRecent c1 between p.nonce 0 (omega arith) first in
      let seen = check_seen c2 p.nonce q.nonce (0 + length between) kept e in
      elim (receive_cases later c2 again) [
        | inl f ↦ ground arith
        | inr (p', (d', f)) ↦
            let same : p'.0 ≡ q = ground arith in
            rw f (accept_seen verify later c2 p' (rw same seen))
      ]
