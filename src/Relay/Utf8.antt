-- ===== src/Relay/Utf8.antt =====
-- What `std::str::from_utf8` accepts, as a machine over the bytes: the ranges that the bytes still
-- missing from the character must lie in.
use plugkill.Prelude.{
  ℕ, ◌≡◌, refl, Bool, true, false, ◌&&◌, List, [], ◌∷◌, leb, if◌then◌else◌, Text,
}

abbrev pub range : ℕ → ℕ → ℕ → Bool
range lo hi c = leb lo c && leb c hi

-- A continuation byte.
abbrev tail : ℕ × ℕ
tail = (0x80, 0xbf)

-- The ranges behind a first byte; an empty range accepts none.
unfoldable pub behind : ℕ → List (ℕ × ℕ)
behind c =
    if leb c 0x7f
    then []
    else if range 0xc2 0xdf c
    then tail ∷ []
    else if range 0xe0 0xe0 c
    then (0xa0, 0xbf) ∷ tail ∷ []
    else if range 0xed 0xed c
    then (0x80, 0x9f) ∷ tail ∷ []
    else if range 0xe1 0xef c
    then tail ∷ tail ∷ []
    else if range 0xf0 0xf0 c
    then (0x90, 0xbf) ∷ tail ∷ tail ∷ []
    else if range 0xf1 0xf3 c
    then tail ∷ tail ∷ tail ∷ []
    else if range 0xf4 0xf4 c
    then (0x80, 0x8f) ∷ tail ∷ tail ∷ []
    else (1, 0) ∷ []

unfoldable pub utf8_from : List (ℕ × ℕ) → Text → Bool
unfolding behind
utf8_from [] [] = true
utf8_from (r ∷ rs) [] = false
utf8_from [] (c ∷ s) = utf8_from (behind c) s
utf8_from ((lo, hi) ∷ rs) (c ∷ s) = range lo hi c && utf8_from rs s

unfoldable pub is_utf8 : Text → Bool
unfolding utf8_from
is_utf8 s = utf8_from [] s

accents : is_utf8 (0xc3 ∷ 0xa9 ∷ 0xe2 ∷ 0x82 ∷ 0xac ∷ []) ≡ true
unfolding is_utf8
accents = refl

cut_short : is_utf8 (0x61 ∷ 0xc3 ∷ []) ≡ false
unfolding is_utf8
cut_short = refl
