-- ===== src/Client.antt =====
-- crates/plugkill-gui: the decisions of the desktop client that do not draw anything.
pub mod Editor
pub mod Show
pub mod Command
