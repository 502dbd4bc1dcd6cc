-- ===== src/Edid/Parse.antt =====
-- crates/plugkill-core/src/edid.rs: `parse` and `monitor_name`, over the bytes of a base block.
pub mod Bounds
use plugkill.Prelude.{
  ℕ, zero, suc, ◌+◌, ◌-◌, ◌*◌, ◌/◌, ◌%◌, ◌^◌, ◌≡◌, refl, Bool, not, ◌&&◌, ◌||◌, Option, none, some,
  List, [], ◌∷◌, ◌++◌, map, take, drop, length, ltb, leb, eqb, if◌then◌else◌, ◌==◌, nat_eq, list_eq,
  list_beq, Text,
}
use plugkill.Edid.{EdidId}

abbrev pub edid_base_len : ℕ
edid_base_len = 128

abbrev header : Text
header = 0x00 ∷ 0xFF ∷ 0xFF ∷ 0xFF ∷ 0xFF ∷ 0xFF ∷ 0xFF ∷ 0x00 ∷ []

abbrev tag_monitor_name : ℕ
tag_monitor_name = 0xFC

abbrev pub max_name : ℕ
max_name = 32

-- `b[i]` of a block that is long enough for `i`
abbrev pub at : Text → ℕ → ℕ
at [] i = 0
at (c ∷ s) zero = c
at (c ∷ s) (suc i) = at s i

-- `b.get(off..off + 18)`
unfoldable pub descriptor : Text → ℕ → Option Text
descriptor b off = if leb (off + 18) (length b) then some (take 18 (drop off b)) else none

-- `text[..end]`, where `end` is the place of the first line feed or the length
unfoldable pub line : Text → Text
line [] = []
line (c ∷ s) = let rest = line s in if eqb c 0x0A then [] else c ∷ rest

unfoldable pub printable : ℕ → ℕ
printable c = if leb 0x20 c && ltb c 0x7F then c else b' '

-- `trim` of a text of printable ASCII, whose only white space is the blank
unfoldable pub trim_start : Text → Text
trim_start [] = []
trim_start (c ∷ s) = let rest = trim_start s in if eqb c b' ' then rest else c ∷ s

unfoldable pub trim_end : Text → Text
trim_end [] = []
trim_end (c ∷ s) = elim (trim_end s) [ [] ↦ if eqb c b' ' then [] else c ∷ [] | d ∷ t ↦ c ∷ d ∷ t ]

-- The body of the loop over the descriptors, once one is found that holds a name
unfoldable pub name_of : Text → Text
unfolding line printable trim_start trim_end
name_of d = take max_name (trim_end (trim_start (map printable (line (take 13 (drop 5 d))))))

unfoldable pub is_name : Text → Bool
unfolding list_beq
is_name d = (take 3 d == 0 ∷ 0 ∷ 0 ∷ []) && eqb (at d 3) tag_monitor_name

-- `for off in (54..126).step_by(18)`: a descriptor out of range ends the loop.
unfoldable pub name_at : Text → List ℕ → Text
unfolding descriptor is_name name_of
name_at b [] = []
name_at b (off ∷ offs) =
    let rest = name_at b offs in
    elim (descriptor b off) [ none ↦ [] | some d ↦ if is_name d then name_of d else rest ]

unfoldable pub monitor_name : Text → Text
unfolding name_at
monitor_name b = name_at b (54 ∷ 72 ∷ 90 ∷ 108 ∷ [])

-- `(packed >> shift) & 0x1F`
abbrev pub letter_value : ℕ → ℕ → ℕ
letter_value packed shift = packed / 2 ^ shift % 32

unfoldable pub letters : ℕ → List ℕ → Option Text
letters packed [] = some []
letters packed (shift ∷ shifts) =
    let rest = letters packed shifts in
    if leb 1 (letter_value packed shift) && leb (letter_value packed shift) 26
    then elim rest [ none ↦ none | some mfg ↦ some ((b'A' + letter_value packed shift - 1) ∷ mfg) ]
    else none

abbrev pub u16_be : ℕ → ℕ → ℕ
u16_be a b = a * 256 + b

abbrev pub u16_le : ℕ → ℕ → ℕ
u16_le a b = a + b * 256

abbrev pub u32_le : ℕ → ℕ → ℕ → ℕ → ℕ
u32_le a b c d = a + b * 256 + c * 65_536 + d * 16_777_216

unfoldable pub serial_of : ℕ → Option ℕ
serial_of n = if eqb n 0 then none else some n

-- The block is the first 128 bytes.
unfoldable pub parse_block : Text → Option EdidId
unfolding letters serial_of monitor_name list_beq
parse_block b =
    if not (take 8 b == header)
    then none
    else elim (letters (u16_be (at b 8) (at b 9)) (10 ∷ 5 ∷ 0 ∷ [])) [
      | none ↦ none
      | some mfg ↦ some (record {
        mfg = mfg;
        product = u16_le (at b 10) (at b 11);
        serial = serial_of (u32_le (at b 12) (at b 13) (at b 14) (at b 15));
        name = monitor_name b;
      })
    ]

unfoldable pub parse : Text → Option EdidId
unfolding parse_block
parse bytes =
    if ltb (length bytes) edid_base_len then none else parse_block (take edid_base_len bytes)
