-- ===== src/Relay/Listener/Nonces.antt =====
-- How long the cache remembers a nonce that it took in.
use plugkill.Prelude.{
  ℕ, suc, ◌<◌, ◌≤◌, ◌≡◌, refl, ap, ◌∙◌, true, false, List, [], ◌∷◌, ◌++◌, arith, leb, ◌==◌, nat_eq,
  list_eq, length, length-append, contains, contains-append, Text, Bool-cases, inl, inr,
  text_eq_refl,
}
use mathlib.Core.List.{append_assoc}
use plugkill.Relay.Listener.{NonceCache, make_room, check_and_insert}

-- A nonce that compares equal to `n` stands in the cache, with at most `k` behind it.
pub record IsRecent (n : Text) (k : ℕ) (seen : List Text) : Type 0 where
  pub front : List Text
  pub it : Text
  pub back : List Text
  pub whole : seen ≡ front ++ it ∷ back
  pub same : (it == n) ≡ true
  pub few : length back ≤ k

pub IsRecent-contains :
    (n : Text) (k : ℕ) (seen : List Text) → IsRecent n k seen → contains seen n ≡ true
IsRecent-contains n k seen r =
    ap (λ (l : List Text). contains l n) r.whole
    ∙ contains-append r.front (r.it ∷ r.back) n
    ∙ unfold contains in ground (arith, r.same)

pub inserted-IsRecent :
    (c : NonceCache) (n : Text)
    → (check_and_insert c n).0 ≡ false
    → IsRecent n 0 (check_and_insert c n).1.seen
unfolding check_and_insert
inserted-IsRecent c n h = elim (Bool-cases (contains c.seen n)) [
  | inl e ↦ ground arith
  | inr e ↦ rw e (record {
    front = make_room c.seen;
    it = n;
    back = [];
    whole = refl;
    same = text_eq_refl n;
    few = omega arith;
  })
]

make_room-keeps :
    (front : List Text) (it : Text) (back : List Text)
    → length back < 999
    → (front' : List Text) × (make_room (front ++ it ∷ back) ≡ front' ++ it ∷ back)
unfolding make_room
make_room-keeps [] it back l =
    let small : leb 1000 (suc (length back)) ≡ false = ground arith in ([], rw small refl)
make_room-keeps (f ∷ front) it back l =
    elim (Bool-cases (leb 1000 (length (f ∷ front ++ it ∷ back)))) [
      | inl e ↦ (front, rw e refl)
      | inr e ↦ (f ∷ front, rw e refl)
    ]

pub IsRecent-more :
    (n : Text) (k j : ℕ) (seen : List Text) → k ≤ j → IsRecent n k seen → IsRecent n j seen
IsRecent-more n k j seen l r = record {
  front = r.front;
  it = r.it;
  back = r.back;
  whole = r.whole;
  same = r.same;
  few = omega (arith, r.few, l);
}

-- One more insertion puts at most one behind it, and does not drop it while there is room.
pub insert-IsRecent :
    (c : NonceCache) (n m : Text) (k : ℕ)
    → k < 999
    → IsRecent n k c.seen
    → IsRecent n (suc k) (check_and_insert c m).1.seen
unfolding check_and_insert
insert-IsRecent c n m k l r = elim (Bool-cases (contains c.seen m)) [
  | inl e ↦ rw e (IsRecent-more n k (suc k) c.seen (omega arith) r)
  | inr e ↦
      let (front', kept) = make_room-keeps r.front r.it r.back (omega (arith, r.few)) in
      rw e (record {
        front = front';
        it = r.it;
        back = r.back ++ m ∷ [];
        whole =
            ap (λ (l : List Text). make_room l ++ m ∷ []) r.whole
            ∙ ap (λ (l : List Text). l ++ m ∷ []) kept
            ∙ append_assoc front' (r.it ∷ r.back) (m ∷ []);
        same = r.same;
        few = omega (arith, r.few, length-append r.back (m ∷ []));
      })
]
