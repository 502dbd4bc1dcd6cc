-- ===== src/Display/Detect.antt =====
-- What `DisplaySnapshot::detect_changes` decides.
use plugkill.Prelude.{
  ◌≡◌, ◌≢◌, ◌↔◌, true, Option, none, some, arith, ◌==◌, nat_eq, option_eq, list_eq, find_map,
  find_map-none, find_map-some, Bool-cases, inl, inr, Text, Memᴰ, All, All-mem, All-of_mem,
  text_eq→eq, text_eq_refl, refl, if◌then◌else◌, ap, sym, ◌∙◌,
}
use mathlib.Core.Path.{subst}
use plugkill.Edid.{edid_id_eq}
use plugkill.Display.{
  DisplayConnector, DisplaySnapshot, get_connector, compare_connector, check_connector, check_gone,
  detect_changes,
}

-- Connector names are not repeated: each entry is the one that its name finds.
abbrev pub IsNamed : DisplaySnapshot → Type 0
IsNamed s = All (λ c. get_connector s c.connector ≡ some c) s.connectors

-- The same reading on both sides: attached or not, and the same monitor while attached.
abbrev pub SameReading : Option DisplayConnector → Option DisplayConnector → Type 0
SameReading none none = Unit
SameReading none (some was) = ⊥
SameReading (some c) none = ⊥
SameReading (some c) (some was) =
    (c.connected ≡ was.connected) × (c.connected ≡ true → (c.edid == was.edid) ≡ true)

abbrev pub IsUnchanged : DisplaySnapshot → DisplaySnapshot → Type 0
IsUnchanged current baseline =
    ((current.opaque_generation == baseline.opaque_generation) ≡ true)
    × ((name : Text) → SameReading (get_connector current name) (get_connector baseline name))

-- What a lookup finds stands in the list under that name.
get_connector-mem :
    (s : DisplaySnapshot) (name : Text) (c : DisplayConnector)
    → get_connector s name ≡ some c
    → Memᴰ c s.connectors × (c.connector ≡ name)
unfolding get_connector
get_connector-mem s name c h =
    let (x, m, q) =
      find_map-some (λ c. if c.connector == name then some c else none) s.connectors h in
    found x m q
  where
    found :
        (x : DisplayConnector)
        → Memᴰ x s.connectors
        → (if x.connector == name then some x else none) ≡ some c
        → Memᴰ c s.connectors × (c.connector ≡ name)
    found x m q = elim (Bool-cases (x.connector == name)) [
      | inl e ↦
          let p : x ≡ c = ground arith in
          (
            subst (λ t. Memᴰ t s.connectors) p m,
            ap (λ (t : DisplayConnector). t.connector) (sym p) ∙ text_eq→eq x.connector name e,
          )
      | inr e ↦ absurd (ground arith)
    ]

mem-get_connector :
    (s : DisplaySnapshot) (c : DisplayConnector)
    → Memᴰ c s.connectors
    → get_connector s c.connector ≢ none
unfolding get_connector
mem-get_connector s c m h =
    let at = λ (x : DisplayConnector). if x.connector == c.connector then some x else none in
    let n = All-mem (λ x. at x ≡ none) s.connectors ((find_map-none at s.connectors).0 h) m in
    ground (arith, text_eq_refl c.connector)

compare_none :
    (c was : DisplayConnector) → (compare_connector c was ≡ none) ↔ SameReading (some c) (some was)
unfolding compare_connector
compare_none c was = (λ h. ground arith, λ h. ground arith)

module _ (current baseline : DisplaySnapshot) where
  both_silent :
      detect_changes current baseline ≡ none
      → ((current.opaque_generation == baseline.opaque_generation) ≡ true)
        × (find_map (check_connector baseline) current.connectors ≡ none)
        × (find_map (check_gone current) baseline.connectors ≡ none)
  unfolding detect_changes
  both_silent h = ground arith

  reading_at :
      (name : Text)
      → All (λ c. check_connector baseline c ≡ none) current.connectors
      → All (λ c. check_gone current c ≡ none) baseline.connectors
      → SameReading (get_connector current name) (get_connector baseline name)
  reading_at name p q = go (get_connector current name) (get_connector baseline name) refl refl
    where
      go :
          (a b : Option DisplayConnector)
          → get_connector current name ≡ a
          → get_connector baseline name ≡ b
          → SameReading a b
      go none none e f = tt
      go none (some was) e f =
          let (m, n) = get_connector-mem baseline name was f in
          let h = All-mem (λ c. check_gone current c ≡ none) baseline.connectors q m in
          absurd (unfold check_gone in ground (arith, ap (get_connector current) n))
      go (some c) none e f =
          let (m, n) = get_connector-mem current name c e in
          let h = All-mem (λ c. check_connector baseline c ≡ none) current.connectors p m in
          absurd (unfold check_connector in ground (arith, ap (get_connector baseline) n))
      go (some c) (some was) e f =
          let (m, n) = get_connector-mem current name c e in
          let h = All-mem (λ c. check_connector baseline c ≡ none) current.connectors p m in
          (compare_none c was).0
            (unfold check_connector in ground (arith, ap (get_connector baseline) n))

  connector_ok :
      IsNamed current
      → ((name : Text) → SameReading (get_connector current name) (get_connector baseline name))
      → All (λ c. check_connector baseline c ≡ none) current.connectors
  connector_ok named u =
      All-of_mem (λ c. check_connector baseline c ≡ none) current.connectors
        λ c m.
          go c (get_connector baseline c.connector) refl
            (All-mem (λ c. get_connector current c.connector ≡ some c) current.connectors named m)
            (u c.connector)
    where
      go :
          (c : DisplayConnector) (b : Option DisplayConnector)
          → get_connector baseline c.connector ≡ b
          → get_connector current c.connector ≡ some c
          → SameReading (get_connector current c.connector) (get_connector baseline c.connector)
          → check_connector baseline c ≡ none
      go c none e f r = absurd (rw (e, f) at r)
      go c (some was) e f r =
          let n = (compare_none c was).1 (rw (e, f) at r) in unfold check_connector in ground arith

  gone_ok :
      ((name : Text) → SameReading (get_connector current name) (get_connector baseline name))
      → All (λ c. check_gone current c ≡ none) baseline.connectors
  gone_ok u =
      All-of_mem (λ c. check_gone current c ≡ none) baseline.connectors
        λ was m.
          go was (get_connector current was.connector) (get_connector baseline was.connector) refl
            refl (mem-get_connector baseline was m) (u was.connector)
    where
      go :
          (was : DisplayConnector) (a b : Option DisplayConnector)
          → get_connector current was.connector ≡ a
          → get_connector baseline was.connector ≡ b
          → get_connector baseline was.connector ≢ none
          → SameReading (get_connector current was.connector) (get_connector baseline was.connector)
          → check_gone current was ≡ none
      go was (some c) b e f n r = unfold check_gone in ground arith
      go was none none e f n r = absurd (n f)
      go was none (some w) e f n r = absurd (rw (e, f) at r)

  -- When no connector name is repeated, `detect_changes` reports nothing exactly when the platform
  -- counter is the same and every name reads the same: present on both sides or on neither,
  -- attached or not alike, and the same monitor (by manufacturer, product and serial) while attached.
  pub display_silence :
      IsNamed current → (detect_changes current baseline ≡ none) ↔ IsUnchanged current baseline
  display_silence named = (
    λ h.
        let (g, p, q) = both_silent h in
        (g, λ name. reading_at name ((find_map-none _ _).0 p) ((find_map-none _ _).0 q)),
    λ u.
        silent u.0 ((find_map-none _ _).1 (connector_ok named u.1))
          ((find_map-none _ _).1 (gone_ok u.1)),
  )
    where
      silent :
          (current.opaque_generation == baseline.opaque_generation) ≡ true
          → find_map (check_connector baseline) current.connectors ≡ none
          → find_map (check_gone current) baseline.connectors ≡ none
          → detect_changes current baseline ≡ none
      silent g p q = unfold detect_changes in ground arith

-- Where one connector name stands twice, on two cards say, with one of them attached and the
-- other not, a snapshot reads as changed against itself, so a standing display fires.
pub display_repeated_name :
    (s : DisplaySnapshot) (c first : DisplayConnector)
    → Memᴰ c s.connectors
    → get_connector s c.connector ≡ some first
    → c.connected ≢ first.connected
    → detect_changes s s ≢ none
display_repeated_name s c first m e ne h =
    let (g, p, q) = both_silent s s h in
    let n = All-mem (λ c. check_connector s c ≡ none) s.connectors ((find_map-none _ _).0 p) m in
    ne ((compare_none c first).0 (unfold check_connector in ground arith)).0
