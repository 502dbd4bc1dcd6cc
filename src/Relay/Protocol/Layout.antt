-- ===== src/Relay/Protocol/Layout.antt =====
-- The fields of a datagram that is laid out as `serialize` lays it out.
use plugkill.Prelude.{
  ℕ, zero, suc, ◌+◌, ◌*◌, ◌/◌, ◌%◌, ◌^◌, ◌<◌, ◌≤◌, ◌≡◌, refl, sym, ap, ◌∙◌, arith, true, false, [],
  ◌∷◌, ◌++◌, some, length, length-append, take, drop, Text, codes, Result, ok, err, eqb, ltb, ◌==◌,
  list_beq, list_eq, nat_eq,
}
use mathlib.Core.List.{append_assoc}
use plugkill.Relay.Utf8.{is_utf8}
use plugkill.Relay.Protocol.{
  PacketType, Packet, type_byte, from_byte, to_be_bytes, from_be_bytes, slice, read_reason, byte_at,
  deserialize,
}

pub length-to_be_bytes : (k n : ℕ) → length (to_be_bytes k n) ≡ k
unfolding to_be_bytes
length-to_be_bytes zero n = refl
length-to_be_bytes (suc k) n =
    rw (length-append (to_be_bytes k (n / 256)) ((n % 256) ∷ []), length-to_be_bytes k (n / 256))
      (omega arith)

from_be_bytes-append :
    (acc : ℕ) (s : Text) (b : ℕ) → from_be_bytes acc (s ++ b ∷ []) ≡ from_be_bytes acc s * 256 + b
unfolding from_be_bytes
from_be_bytes-append acc [] b = refl
from_be_bytes-append acc (c ∷ s) b = from_be_bytes-append (acc * 256 + c) s b

pow_suc : (k : ℕ) → 256 ^ suc k ≡ 256 * 256 ^ k
pow_suc k = omega arith

pub from-to_be_bytes : (k n : ℕ) → n < 256 ^ k → from_be_bytes 0 (to_be_bytes k n) ≡ n
unfolding to_be_bytes
from-to_be_bytes zero n h = unfold from_be_bytes in omega arith
from-to_be_bytes (suc k) n h =
    from_be_bytes-append 0 (to_be_bytes k (n / 256)) (n % 256)
    ∙ rw (from-to_be_bytes k (n / 256) (omega (arith, pow_suc k))) (omega arith)

take_front : (s r : Text) (n : ℕ) → length s ≡ n → take n (s ++ r) ≡ s
take_front [] r n h = ground arith
take_front (c ∷ s) r zero h = ground arith
take_front (c ∷ s) r (suc n) h = ap (λ (t : Text). c ∷ t) (take_front s r n (omega arith))

drop_front : (s r : Text) (n : ℕ) → length s ≡ n → drop n (s ++ r) ≡ r
drop_front [] r n h = ground arith
drop_front (c ∷ s) r zero h = ground arith
drop_front (c ∷ s) r (suc n) h = drop_front s r n (omega arith)

drop_past : (s r : Text) (n k m : ℕ) → length s ≡ n → m ≡ n + k → drop m (s ++ r) ≡ drop k r
drop_past [] r n k m h e = ap (λ (t : ℕ). drop t r) (omega arith)
drop_past (c ∷ s) r n k zero h e = ground arith
drop_past (c ∷ s) r n k (suc m) h e = drop_past s r (length s) k m refl (omega arith)

take_all : (s : Text) (n : ℕ) → length s ≡ n → take n s ≡ s
take_all [] n h = ground arith
take_all (c ∷ s) zero h = ground arith
take_all (c ∷ s) (suc n) h = ap (λ (t : Text). c ∷ t) (take_all s n (omega arith))

-- Both checks passed, on any byte string.
read_reason-passes :
    (ty : PacketType) (n : ℕ) (bytes : Text)
    → n ≤ 256
    → 128 + n ≤ length bytes
    → is_utf8 (slice 64 n bytes) ≡ true
    → read_reason ty n bytes
      ≡ ok (
        record {
          packet_type = ty;
          timestamp = from_be_bytes 0 (slice 6 8 bytes);
          nonce = slice 14 16 bytes;
          sender_id = slice 30 32 bytes;
          reason = slice 64 n bytes;
        },
        (take (64 + n) bytes, slice (64 + n) 64 bytes),
      )
unfolding read_reason
read_reason-passes ty n bytes h l u =
    let a : ltb 256 n ≡ false = ground arith in
    let b : ltb (length bytes) (64 + n + 64) ≡ false = ground arith in rw (a, b, u) refl

read_reason_refuses :
    (ty : PacketType) (n : ℕ) (bytes : Text)
    → n ≤ 256
    → 128 + n ≤ length bytes
    → is_utf8 (slice 64 n bytes) ≡ false
    → read_reason ty n bytes ≡ err (codes "reason not valid UTF-8")
unfolding read_reason
read_reason_refuses ty n bytes h l u =
    let a : ltb 256 n ≡ false = ground arith in
    let b : ltb (length bytes) (64 + n + 64) ≡ false = ground arith in rw (a, b, u) refl

deserialize-passes :
    (ty : PacketType) (bytes : Text)
    → 128 ≤ length bytes
    → (take 4 bytes == codes "PKRL") ≡ true
    → eqb (byte_at 4 bytes) 1 ≡ true
    → from_byte (byte_at 5 bytes) ≡ some ty
    → deserialize bytes ≡ read_reason ty (from_be_bytes 0 (slice 62 2 bytes)) bytes
unfolding deserialize
deserialize-passes ty bytes l m v t =
    let a : ltb (length bytes) 128 ≡ false = ground arith in ground (arith, a, m, v, t)

-- The fields of a datagram that is laid out as `serialize` does.
module _ (ty : PacketType) (t8 nonce sender l2 r sig : Text) (ht : length t8 ≡ 8)
    (hn : length nonce ≡ 16) (hs : length sender ≡ 32) (hl : length l2 ≡ 2) where
  abbrev pub after_type : Text
  after_type = t8 ++ (nonce ++ (sender ++ (l2 ++ (r ++ sig))))

  abbrev pub layout : Text
  layout = codes "PKRL" ++ (1 ∷ type_byte ty ∷ after_type)

  type_of_layout : from_byte (byte_at 5 layout) ≡ some ty
  unfolding from_byte from_be_bytes type_byte
  type_of_layout = ground arith

  timestamp_of_layout : slice 6 8 layout ≡ t8
  timestamp_of_layout = take_front t8 (nonce ++ (sender ++ (l2 ++ (r ++ sig)))) 8 ht

  nonce_of_layout : slice 14 16 layout ≡ nonce
  nonce_of_layout =
      rw (drop_front t8 (nonce ++ (sender ++ (l2 ++ (r ++ sig)))) 8 ht)
        (take_front nonce (sender ++ (l2 ++ (r ++ sig))) 16 hn)

  sender_of_layout : slice 30 32 layout ≡ sender
  sender_of_layout =
      rw
        (
          drop_past t8 (nonce ++ (sender ++ (l2 ++ (r ++ sig)))) 8 16 24 ht (omega arith),
          drop_front nonce (sender ++ (l2 ++ (r ++ sig))) 16 hn,
        )
        (take_front sender (l2 ++ (r ++ sig)) 32 hs)

  length_of_layout : slice 62 2 layout ≡ l2
  length_of_layout =
      rw
        (
          drop_past t8 (nonce ++ (sender ++ (l2 ++ (r ++ sig)))) 8 48 56 ht (omega arith),
          drop_past nonce (sender ++ (l2 ++ (r ++ sig))) 16 32 48 hn (omega arith),
          drop_front sender (l2 ++ (r ++ sig)) 32 hs,
        )
        (take_front l2 (r ++ sig) 2 hl)

  reason_of_layout : (n : ℕ) → length r ≡ n → slice 64 n layout ≡ r
  reason_of_layout n h =
      rw
        (
          drop_past t8 (nonce ++ (sender ++ (l2 ++ (r ++ sig)))) 8 50 58 ht (omega arith),
          drop_past nonce (sender ++ (l2 ++ (r ++ sig))) 16 34 50 hn (omega arith),
          drop_past sender (l2 ++ (r ++ sig)) 32 2 34 hs (omega arith),
          drop_front l2 (r ++ sig) 2 hl,
        )
        (take_front r sig n h)

  -- What is signed stands in front of the signature.
  abbrev pub signed : Text
  signed = codes "PKRL" ++ (1 ∷ type_byte ty ∷ (t8 ++ (nonce ++ (sender ++ (l2 ++ r)))))

  pub layout-signed : signed ++ sig ≡ layout
  layout-signed = simp append_assoc

  length-signed : length signed ≡ 64 + length r
  length-signed = omega (
    arith,
    length-append t8 (nonce ++ (sender ++ (l2 ++ r))),
    length-append nonce (sender ++ (l2 ++ r)),
    length-append sender (l2 ++ r),
    length-append l2 r,
  )

  length-layout : (n : ℕ) → length r ≡ n → length sig ≡ 64 → 128 + n ≤ length layout
  length-layout n h k =
      omega
        (arith, ap (λ (t : Text). length t) layout-signed, length-append signed sig, length-signed)

  signed_of_layout : (n : ℕ) → length r ≡ n → take (64 + n) layout ≡ signed
  signed_of_layout n h =
      ap (λ (t : Text). take (64 + n) t) (sym layout-signed)
      ∙ take_front signed sig (64 + n) (length-signed ∙ omega arith)

  signature_of_layout : (n : ℕ) → length r ≡ n → length sig ≡ 64 → slice (64 + n) 64 layout ≡ sig
  signature_of_layout n h k =
      ap (λ (t : Text). take 64 (drop (64 + n) t)) (sym layout-signed)
      ∙ ap (λ (t : Text). take 64 t) (drop_front signed sig (64 + n) (length-signed ∙ omega arith))
      ∙ take_all sig 64 k

  fields_of_layout :
      (n : ℕ)
      → length r ≡ n
      → length sig ≡ 64
      → ◌≡◌ {A = Result (Packet × (Text × Text))}
          (ok (
            record {
              packet_type = ty;
              timestamp = from_be_bytes 0 (slice 6 8 layout);
              nonce = slice 14 16 layout;
              sender_id = slice 30 32 layout;
              reason = slice 64 n layout;
            },
            (take (64 + n) layout, slice (64 + n) 64 layout),
          ))
          (ok (
            record {
              packet_type = ty;
              timestamp = from_be_bytes 0 t8;
              nonce = nonce;
              sender_id = sender;
              reason = r;
            },
            (signed, sig),
          ))
  fields_of_layout n h k = cc (
    timestamp_of_layout,
    nonce_of_layout,
    sender_of_layout,
    reason_of_layout n h,
    signed_of_layout n h,
    signature_of_layout n h k,
  )

  -- Where the reason is no UTF-8, the datagram is refused.
  pub deserialize-layout_refused :
      (n : ℕ)
      → length r ≡ n
      → n ≤ 256
      → from_be_bytes 0 l2 ≡ n
      → is_utf8 r ≡ false
      → length sig ≡ 64
      → deserialize layout ≡ err (codes "reason not valid UTF-8")
  unfolding list_beq
  deserialize-layout_refused n hr h256 hlen hutf hsig =
      deserialize-passes ty layout (omega (arith, length-layout n hr hsig)) refl
        (unfold from_be_bytes in refl) type_of_layout
      ∙ ap (λ (k : ℕ). read_reason ty k layout)
          (ap (λ (t : Text). from_be_bytes 0 t) length_of_layout ∙ hlen)
      ∙ read_reason_refuses ty n layout h256 (length-layout n hr hsig)
          (ap (λ (t : Text). is_utf8 t) (reason_of_layout n hr) ∙ hutf)

  pub deserialize-layout :
      (n : ℕ)
      → length r ≡ n
      → n ≤ 256
      → from_be_bytes 0 l2 ≡ n
      → is_utf8 r ≡ true
      → length sig ≡ 64
      → deserialize layout
        ≡ ok (
          record {
            packet_type = ty;
            timestamp = from_be_bytes 0 t8;
            nonce = nonce;
            sender_id = sender;
            reason = r;
          },
          (signed, sig),
        )
  unfolding list_beq
  deserialize-layout n hr h256 hlen hutf hsig =
      deserialize-passes ty layout (omega (arith, length-layout n hr hsig)) refl
        (unfold from_be_bytes in refl) type_of_layout
      ∙ ap (λ (k : ℕ). read_reason ty k layout)
          (ap (λ (t : Text). from_be_bytes 0 t) length_of_layout ∙ hlen)
      ∙ read_reason-passes ty n layout h256 (length-layout n hr hsig)
          (ap (λ (t : Text). is_utf8 t) (reason_of_layout n hr) ∙ hutf)
      ∙ fields_of_layout n hr hsig
