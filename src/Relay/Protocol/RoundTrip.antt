-- ===== src/Relay/Protocol/RoundTrip.antt =====
-- A datagram that `serialize` builds, read back.
use plugkill.Prelude.{
  ℕ, ◌^◌, ◌<◌, min, ◌≡◌, ap, ◌∙◌, arith, true, false, length, length-take, take, Text, codes, ok,
  err, list_eq, nat_eq,
}
use plugkill.Relay.Utf8.{is_utf8}
use plugkill.Relay.Protocol.{PacketType, to_be_bytes, message_of, serialize, deserialize}
use plugkill.Relay.Protocol.Layout.{
  length-to_be_bytes, from-to_be_bytes, layout-signed, deserialize-layout,
  deserialize-layout_refused,
}

length-take-min : (s : Text) → length (take (min (length s) 256) s) ≡ min (length s) 256
length-take-min s = omega (arith, length-take (min (length s) 256) s)

-- A datagram reads back as what it was built from, with the reason cut to 256 bytes, and with what
-- was signed and the signature to check: where the timestamp fits eight bytes, the nonce, the key
-- and the signature have their sizes, and the cut reason is UTF-8.
pub deserialize-serialize :
    (sign_fn : Text → Text) (ty : PacketType) (timestamp : ℕ) (nonce sender reason : Text)
    → timestamp < 2 ^ 64
    → length nonce ≡ 16
    → length sender ≡ 32
    → ((m : Text) → length (sign_fn m) ≡ 64)
    → is_utf8 (take (min (length reason) 256) reason) ≡ true
    → deserialize (serialize sign_fn ty timestamp nonce sender reason)
      ≡ ok (
        record {
          packet_type = ty;
          timestamp = timestamp;
          nonce = nonce;
          sender_id = sender;
          reason = take (min (length reason) 256) reason;
        },
        (
          message_of ty timestamp nonce sender reason,
          sign_fn (message_of ty timestamp nonce sender reason),
        ),
      )
unfolding serialize message_of
deserialize-serialize sign_fn ty timestamp nonce sender reason ht hn hs hk hu =
    let n = min (length reason) 256 in
    let t8 = to_be_bytes 8 timestamp in
    let l2 = to_be_bytes 2 n in
    let r = take n reason in
    let sig = sign_fn (message_of ty timestamp nonce sender reason) in
    ap (λ (t : Text). deserialize t)
      (layout-signed ty t8 nonce sender l2 r sig (length-to_be_bytes 8 timestamp) hn hs
        (length-to_be_bytes 2 n))
    ∙ deserialize-layout ty t8 nonce sender l2 r sig (length-to_be_bytes 8 timestamp) hn hs
        (length-to_be_bytes 2 n) n (length-take-min reason) (omega arith)
        (from-to_be_bytes 2 n (omega arith)) hu (hk _)
    ∙ cc (from-to_be_bytes 8 timestamp ht)

-- Where cutting the reason to 256 bytes leaves a character incomplete, or the reason was no UTF-8,
-- every receiver refuses the datagram.
pub cut_reason_refused :
    (sign_fn : Text → Text) (ty : PacketType) (timestamp : ℕ) (nonce sender reason : Text)
    → length nonce ≡ 16
    → length sender ≡ 32
    → ((m : Text) → length (sign_fn m) ≡ 64)
    → is_utf8 (take (min (length reason) 256) reason) ≡ false
    → deserialize (serialize sign_fn ty timestamp nonce sender reason)
      ≡ err (codes "reason not valid UTF-8")
unfolding serialize message_of
cut_reason_refused sign_fn ty timestamp nonce sender reason hn hs hk hu =
    let n = min (length reason) 256 in
    let t8 = to_be_bytes 8 timestamp in
    let l2 = to_be_bytes 2 n in
    let r = take n reason in
    let sig = sign_fn (message_of ty timestamp nonce sender reason) in
    ap (λ (t : Text). deserialize t)
      (layout-signed ty t8 nonce sender l2 r sig (length-to_be_bytes 8 timestamp) hn hs
        (length-to_be_bytes 2 n))
    ∙ deserialize-layout_refused ty t8 nonce sender l2 r sig (length-to_be_bytes 8 timestamp) hn hs
        (length-to_be_bytes 2 n) n (length-take-min reason) (omega arith)
        (from-to_be_bytes 2 n (omega arith)) hu (hk _)
