-- ===== src/Relay/Config.antt =====
-- `Config` and `validate` of crates/plugkill-relay/src/config.rs. The base64 decoder and the text of
-- its error are a package's.
pub mod Accepted
use plugkill.Prelude.{
  ℕ, Bool, true, false, not, ◌||◌, Option, none, some, List, [], ◌∷◌, ◌++◌, ltb, eqb, any, contains,
  if◌then◌else◌, ◌==◌, list_eq, nat_eq, is_empty, length, to_dec, Text, codes, Result, ok, err,
  ◌>>=◌,
}
use plugkill.Paths.{is_absolute}
use plugkill.Relay.Listener.{PeerConfig, decode_pubkey}

-- `GeneralConfig`
pub record RelayGeneral : Type 0 where
  pub listen_port : ℕ
  pub plugkill_socket : Text
  pub poll_interval_ms : ℕ
  pub private_key_file : Option Text

pub record RetryConfig : Type 0 where
  pub ack_timeout_ms : ℕ
  pub max_retries : ℕ

-- `Config`
pub record RelayConfig : Type 0 where
  pub general : RelayGeneral
  pub retry : RetryConfig
  pub peers : List PeerConfig

abbrev pub Check : Type 0
Check = Result Unit

unfoldable pub check_key_file : Option Text → Check
unfolding is_absolute
check_key_file none = err (codes "general.private_key_file is required")
check_key_file (some key_path) =
    if not (is_absolute key_path)
    then err (codes "private_key_file must be an absolute path, got: " ++ key_path)
    else ok tt

unfoldable pub check_ranges : ℕ → RetryConfig → Check
check_ranges poll_interval_ms retry =
    if ltb poll_interval_ms 50
    then err (codes "poll_interval_ms must be >= 50")
    else if ltb 10000 poll_interval_ms
    then err (codes "poll_interval_ms must be <= 10000")
    else if ltb retry.ack_timeout_ms 10
    then err (codes "ack_timeout_ms must be >= 10")
    else if ltb 10 retry.max_retries
    then err (codes "max_retries must be <= 10")
    else ok tt

abbrev pub of_peer : Text → Text
of_peer name = codes "peer '" ++ (name ++ codes "'")

-- `addr.contains(':')`
abbrev pub has_port : Text → Bool
has_port addr = any (λ c. eqb c b':') addr

unfoldable pub check_addresses : Text → List Text → Check
unfolding any
check_addresses name [] = ok tt
check_addresses name (addr ∷ rest) =
    let others = check_addresses name rest in
    if not (has_port addr)
    then err (
        of_peer name
        ++ (codes ": address '" ++ (addr ++ codes "' must include a port (host:port)")))
    else others

module _ (base64_decode : Text → Option Text) (base64_error : Text → Text) where
  -- The error of `decode_pubkey`, `?` behind it.
  unfoldable pub check_pubkey : PeerConfig → Check
  unfolding to_dec decode_pubkey
  check_pubkey peer = elim (base64_decode peer.pubkey) [
    | none ↦
        err (of_peer peer.name ++ (codes ": invalid base64 pubkey: " ++ base64_error peer.pubkey))
    | some bytes ↦
        if eqb (length bytes) 32
        then ok tt
        else err (
            of_peer peer.name ++ (codes ": pubkey must be 32 bytes, got " ++ to_dec (length bytes)))
  ]

  unfoldable pub check_peer : List Text → PeerConfig → Check
  unfolding contains check_pubkey check_addresses
  check_peer names peer =
      if is_empty peer.name
      then err (codes "peer name must not be empty")
      else if contains names peer.name
      then err (codes "duplicate peer name: '" ++ (peer.name ++ codes "'"))
      else (check_pubkey peer >>= λ u. check_addresses peer.name peer.addresses)

  -- The loop over the peers: `names` are those of the peers before.
  unfoldable pub check_peers : List Text → List PeerConfig → Check
  unfolding check_peer
  check_peers names [] = ok tt
  check_peers names (peer ∷ rest) =
      check_peer names peer >>= λ u. check_peers (peer.name ∷ names) rest

  -- `validate`
  unfoldable pub validate_relay : RelayConfig → Check
  unfolding check_key_file check_ranges check_peers
  validate_relay config =
      check_key_file config.general.private_key_file
      >>= (λ u. check_ranges config.general.poll_interval_ms config.retry)
      >>= (λ u. check_peers [] config.peers)
