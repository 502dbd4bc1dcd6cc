-- ===== src/Relay/Protocol/Bounds.antt =====
-- What a datagram that is read has: the sizes of its fields, and what the signature stands behind.
use plugkill.Prelude.{
  ℕ, zero, suc, ◌+◌, ◌≤◌, ◌≡◌, refl, sym, if◌then◌else◌, ap, ◌∙◌, arith, Bool, true, false, not,
  Option, none, some, [], ◌∷◌, ◌++◌, length, length-take, take, drop, Text, codes, Result, ok, err,
  eqb, ltb, ◌==◌, list_eq, nat_eq,
}
use plugkill.Relay.Utf8.{is_utf8}
use plugkill.Relay.Protocol.{
  PacketType, Packet, from_byte, from_be_bytes, slice, read_reason, byte_at, deserialize,
}

length-drop_add : (n : ℕ) (s : Text) → n ≤ length s → n + length (drop n s) ≡ length s
length-drop_add zero s h = omega arith
length-drop_add (suc n) [] h = omega arith
length-drop_add (suc n) (b ∷ s) h = omega (arith, length-drop_add n s (omega arith))

length-slice : (from n : ℕ) (s : Text) → from + n ≤ length s → length (slice from n s) ≡ n
length-slice from n s h =
    omega (arith, length-take n (drop from s), length-drop_add from s (omega arith))

take_nothing : (n : ℕ) → ◌≡◌ {A = Text} (take n []) []
take_nothing zero = refl
take_nothing (suc n) = refl

take-slice : (n m : ℕ) (s : Text) → take n s ++ slice n m s ≡ take (n + m) s
take-slice zero m s = ap (λ (k : ℕ). take k s) (omega arith)
take-slice (suc n) zero [] = sym (take_nothing (suc n + zero))
take-slice (suc n) (suc m) [] = sym (take_nothing (suc n + suc m))
take-slice (suc n) m (b ∷ s) =
    let more : suc n + m ≡ suc (n + m) = omega arith in
    rw more (ap (λ (t : Text). b ∷ t) (take-slice n m s))

-- What a packet, the bytes under the signature and the signature are, against the datagram.
abbrev pub IsFramed : Text → Packet × (Text × Text) → Type 0
IsFramed bytes (p, (msg, sig)) =
    (length p.nonce ≡ 16)
    × (length p.sender_id ≡ 32)
    × (length p.reason ≤ 256)
    × (is_utf8 p.reason ≡ true)
    × (length msg ≡ 64 + length p.reason)
    × (length sig ≡ 64)
    × (msg ++ sig ≡ take (128 + length p.reason) bytes)
    × (128 + length p.reason ≤ length bytes)

module _ {ℓ} {A : Type ℓ} where
  -- What three refusals in a row have let through.
  three_checks :
      (a b c : Bool) (e f g : Text) (v q : A)
      → (if a then err e else if b then err f else if not c then err g else ok v) ≡ ok q
      → (a ≡ false) × (b ≡ false) × (c ≡ true) × (v ≡ q)
  three_checks true b c e f g v q h = ground arith
  three_checks false true c e f g v q h = ground arith
  three_checks false false false e f g v q h = ground arith
  three_checks false false true e f g v q h = (refl, refl, refl, ground arith)

  header_checks :
      (a b c : Bool) (e f g : Text) (r : Result A) (q : A)
      → (if a then err e else if not b then err f else if not c then err g else r) ≡ ok q
      → r ≡ ok q
  header_checks true b c e f g r q h = ground arith
  header_checks false false c e f g r q h = ground arith
  header_checks false true false e f g r q h = ground arith
  header_checks false true true e f g r q h = h

  some_only :
      {B : Type 0} (o : Option B) (e : Text) (k : B → Result A) (q : A)
      → elim o [ none ↦ err e | some b ↦ k b ] ≡ ok q
      → (b : B) × (k b ≡ ok q)
  some_only none e k q h = ground arith
  some_only (some b) e k q h = (b, h)

read_reason-IsFramed :
    (ty : PacketType) (n : ℕ) (bytes : Text) (q : Packet × (Text × Text))
    → read_reason ty n bytes ≡ ok q
    → IsFramed bytes q
unfolding read_reason
read_reason-IsFramed ty n bytes q h =
    let (a, b, c, e) = three_checks (ltb 256 n) (ltb (length bytes) (64 + n + 64)) _ _ _ _ _ q h in
    let long : n ≤ 256 = ground arith in
    let whole : 128 + n ≤ length bytes = ground arith in
    let reason : length (slice 64 n bytes) ≡ n = length-slice 64 n bytes (omega arith) in
    rw (sym e) (
      length-slice 14 16 bytes (omega arith),
      length-slice 30 32 bytes (omega arith),
      omega arith,
      c,
      omega (arith, length-take (64 + n) bytes),
      length-slice (64 + n) 64 bytes (omega arith),
      take-slice (64 + n) 64 bytes ∙ ap (λ (k : ℕ). take k bytes) (omega arith),
      omega arith,
    )

-- A datagram that is read has a nonce of 16 bytes, a sender's key of 32, a reason of at most 256 that
-- is UTF-8 and a signature of 64, and every byte of its first 128 and the reason's is either under
-- the signature or the signature's: only what follows them is unsigned.
pub deserialize-IsFramed :
    (bytes : Text) (q : Packet × (Text × Text)) → deserialize bytes ≡ ok q → IsFramed bytes q
unfolding deserialize
deserialize-IsFramed bytes q h =
    let e =
      header_checks (ltb (length bytes) 128) (take 4 bytes == codes "PKRL")
        (eqb (byte_at 4 bytes) 1) _ _ _ _ q h in
    let (ty, f) = some_only (from_byte (byte_at 5 bytes)) _ _ q e in
    read_reason-IsFramed ty (from_be_bytes 0 (slice 62 2 bytes)) bytes q f
