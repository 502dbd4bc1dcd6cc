-- ===== src/Lib.antt =====
-- plugkill: a daemon that watches the buses of a machine and runs a kill sequence when one of them
-- changes in a way that nobody accepted.
--
-- The poll loop (crates/plugkill/src/main.rs) reads each watched bus, compares the reading with a
-- baseline and a whitelist, and turns the first difference into a violation. The control socket
-- (crates/plugkill/src/socket.rs) runs commands of local clients on the same state: it disarms and
-- arms, opens pairing windows, grants and revokes runtime allowances, and queues a relay's kill.
--
-- Files, with the code that each one models:
--   Usb, Thunderbolt, SdCard, Pci, Display (crates/plugkill-core/src, files of the same names): the
--     snapshots and `detect_changes`; their Detect children say what the comparison decides. A loop
--     that returns from its body is `find_map` over a function that models one pass.
--   Edid (edid.rs): the identity of a monitor; Parse has `parse` of a base block, Bounds below it its
--     theorem.
--   Allowances (allowances.rs): `DeviceRef`, `Allowance`, `AllowanceTable`; Selector has `from_str`,
--     with the round trip below it, Table and Warn the theorems on the table, and Refines below Table
--     its specification, a partial function.
--   Config (config.rs): the configuration's records and defaults; Validate has `validate`, Bounds
--     below it what it lets through.
--   State (state.rs, crates/plugkill/src/daemon_state.rs): the state that the threads share; History
--     and Pairing have its theorems, Waiting the argument that the checks with a grace share.
--   Ipc (ipc.rs, authz.rs): requests, replies, peer credentials, the authority's answers.
--   Socket (crates/plugkill/src/socket.rs): one function per command; Dispatch has `authorize` and
--     `handle_request`, Status the fields of the status reply; Permission, Timing and Effects have
--     the theorems.
--   Power (power.rs, `check_power_violation_with` of crates/plugkill/src/main.rs): the power check;
--     Waiting has the theorems over sequences of polls.
--   Network (network.rs, `links_down` of crates/plugkill/src/socket.rs): link states and the search
--     for a lost link; LinkDown has its theorem, Check `check_network_violation_with`.
--   Lid (lid.rs, `check_lid_violation_with` of crates/plugkill/src/main.rs): the lid check.
--   Monitor (crates/plugkill/src/main.rs): of an iteration of the poll loop, the first locked section
--     (`drain`), `poll_action`, `admit_or_keep`, `handle_violation` and their composition once a check
--     has found a violation (`settle`); Rearm and Verdict have the theorems. Allowed has the
--     whitelists that count allowances and `skip_allowed`, Revoked below it its theorem;
--     Detection has `detect_violations`, Silence below it its theorem; Buses the PCI and display
--     checks, Unseen and Removed below it what an allowance does to them; Capture has
--     `capture_baselines`, Silence and Events below it that a fresh baseline is silent, Standing what
--     a reload leaves; Iteration has a whole iteration with the reload, over all of these, and Armed,
--     Chain, Disarmed and Killed its theorems.
--   Paths: what the configuration and the kill sequence ask of `std::path`.
--   Kill (crates/plugkill/src/kill.rs): the calls of the kill sequence; Shred has `shred_file` and
--     `shred_directory`, Sequence the other steps and `execute_kill_sequence`; Overwrites, Steps,
--     Melt and Configured have the theorems.
--   Relay (crates/plugkill-relay/src): Protocol has the datagrams of protocol.rs, Listener what one
--     datagram does (listener.rs, `NonceCache` of crypto.rs), Sender the rounds of `fan_out` and
--     `check_ack` (sender.rs), Config `validate` (config.rs), Trigger the watcher and `classify`
--     (watcher.rs, trigger.rs); the children have the theorems. Utf8 is `from_utf8`'s test.
--   Client (crates/plugkill-gui/src): Show has what the tray shows and the loop fetches (status.rs,
--     poll.rs), Command the commands (commands.rs, `read_timeout` of ipc.rs), Editor and Cover below
--     it the tables of the configuration editor (settings/editor/model.rs); the children have the
--     theorems.
--   Prelude: Booleans, equality, lists, maps, byte strings, numbers.
--   Examples: the theorems with hypotheses, at concrete inputs.
--
-- A `HashMap` or `HashSet` is a list of keys compared by the type's own `==`; the order stands for
-- the iteration order, which the code does not fix, and the theorems hold for every order. A
-- string is the list of its UTF-8 bytes. An `Instant` and a `Duration` are counts of nanoseconds,
-- over ℕ, so an addition never overflows; the u64 counter of logged violations is over ℕ as well.
-- A lock's critical section is one step: a function takes the state and returns the new one. The
-- clock, the hardware readings and the authority's answer are arguments. So are the relay's base64
-- decoder, signature check and hex encoder, which are packages, and what its socket receives in a
-- round. The kill sequence is the list of the calls that it makes; whether a call succeeds and what
-- stands at a path are the `World`'s, and a link to a directory is a finite tree, so that no walk runs in a circle. Fuel is used twice: to
-- print a decimal number, n + 1 steps for n, and to overwrite a file, its size in steps, each of
-- which writes a byte at least; Overwrites shows that this writes the whole file.
--
-- Not modelled: sockets, threads, JSON, TOML and file access, polkit, the journal, the devices and
-- violations replies and the allowances in the status reply, the client's widgets, device tree,
-- diagnostics and output pane, FreeBSD's backends, the relay's resolver,
-- and of the daemon the startup, which captures the first baselines.
-- An iteration does not model the process leaving after the kill sequence: its result is whether the
-- sequence runs, and Kill has the sequence. The commands of the socket run between the locked
-- sections of an iteration; Iteration has the iterations into which none falls.
pub mod Client
pub mod Prelude
pub mod Usb
pub mod Thunderbolt
pub mod SdCard
pub mod Pci
pub mod Edid
pub mod Display
pub mod Allowances
pub mod Config
pub mod State
pub mod Ipc
pub mod Network
pub mod Power
pub mod Lid
pub mod Socket
pub mod Monitor
pub mod Paths
pub mod Kill
pub mod Relay
pub mod Examples
