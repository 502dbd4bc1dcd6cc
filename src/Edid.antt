-- ===== src/Edid.antt =====
-- crates/plugkill-core/src/edid.rs: the identity of a monitor.
pub mod Parse
use plugkill.Prelude.{ℕ, Option, Eq, eq_on, list_eq, nat_eq, option_eq, pair_eq, Text}

pub record EdidId : Type 0 where
  pub mfg : Text
  pub product : ℕ
  pub serial : Option ℕ
  pub name : Text

-- The hand-written `PartialEq`: the name is not part of the identity.
instance abbrev pub edid_id_eq : Eq EdidId
edid_id_eq = eq_on {A = Text × (ℕ × Option ℕ)} (λ id. (id.mfg, (id.product, id.serial)))
