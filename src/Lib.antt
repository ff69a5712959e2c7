-- ===== src/Lib.antt =====
-- Verification of Pi Manager, a Home Assistant integration that manages Raspberry Pi hosts over SSH.
--
-- The program has two sides. On each host a helper (custom_components/pi_manager/remote/
-- pi_manager_agent.py) runs as root behind sudo: it reports a status as JSON, starts package jobs and
-- power actions, acts on allowlisted services, and replaces itself on a signed request. In Home
-- Assistant the integration (the other files of custom_components/pi_manager) keeps one SSH
-- connection per host, sends the helper's operations, parses its JSON and upgrades an old helper.
--
-- Files and what they model:
-- - Prelude and its children: names of the libraries that are passed on; Text and Unicode are
--   Python's string functions (strip, splitlines, partition, isdigit), Results and Exec are
--   exceptions without and with a state; Preserves and Returns are rules for invariants and for what
--   holds on a return.
-- - Json: the values of Python's json module, objects as lists of fields in their order; Json/Floats
--   has binary64 numbers with `float(int)`; Json/Laws reads back a write to an object.
-- - Errors, Models: errors.py and models.py.
-- - Contract: contract.py. Fields has `_string`, `_number`, `_bool`; Parts, Maintenance and Status
--   have the parsers; Valid and Bounds say and prove what a parsed status satisfies.
-- - Agent: the helper. World is its host; Constants and Names are its tables and regular expressions;
--   Services, Jobs (State, Start), Maintenance (Counts, Query, Public), Config with Configure, Trust,
--   Sudoers and Upgrade have the operations, Library the functions of the standard library that they
--   call, Status the poll, and Main the dispatch, the error report and `_emit`. Keeps, Post and Frame
--   carry invariants through every operation; Commands is the list of commands that may be started;
--   Distinct, Configured, Jobs/Started, Jobs/Machine and Safety have the proofs. Measures has the
--   mounted file systems, with its proof in Sound.
-- - Integration: Validation is validation.py, Sudoers is sudoers.py, Runtime (State, Operations,
--   Configure) is runtime.py, Actions is actions.py and Upgrade is upgrade.py, each with its proofs
--   in a child. Ssh is ssh.py: Words has the quoting of a command line and a reference reader of such
--   lines, Client the connection, Joined, Answered and Trust the proofs. KeyStore is key_store.py:
--   Files has the two ways to write, Operations the rest, Written the proofs. Discovery is
--   discovery.py, with its texts in Texts and its proof in Kept, Granted and Found. Bootstrap is
--   bootstrap.py: Session has the two clients and the local keys, Install the installations, Whole
--   the phases; Commands and Policy prove what the host sees, Tracked, Noted and Removed the cleanup,
--   Apart, Opened and Verified what a result stands for. Coordinator is coordinator.py, with its
--   proof in Reported. Sensors has the sensors of sensor.py that are created for mounts and
--   interfaces, with its proof in Created.
-- - Protocol: what the integration's parser makes of the helper's maintenance report.
-- - Tests: sample hosts and libraries, the theorems at concrete inputs, tests of the text functions.
--
-- The helper's host is a record of three JSON documents (configuration, trust, state), the contents
-- of the agent, the launcher and the sudo policy, whether the process is root, the commands that were
-- started, and lists of answers: how each command ends, what the clock and the uuid generator give,
-- whether each file operation and each reading of a JSON file fails. A theorem about every host
-- therefore covers every such answer. An operation is a function from a host to a result or a failure
-- and a host, so what was written before a failure stays written. The connection of the integration
-- is modelled alike: a client logs its commands and uploads, and lists tell how the library answers
-- each; a key store has the files of each machine, and a list tells which writes fail and how far
-- they got.
--
-- base64, UTF-8, JSON decoding, HMAC-SHA256 and the compiler are parameters. Numbers are natural
-- numbers or integers without bound, as in Python; fuel is used only for the length of an integer in
-- bits, where the number itself is enough.
--
-- Not modelled: the helper's readings of temperature, memory, network and machine, which enter a
-- status as what they give; argparse; ownership and modes of files on the host, which are file
-- operations that may fail; two helper processes at once, which the file lock excludes; the SSH
-- library; the effect on the host of the script that appends a key; the forms of Home Assistant, and
-- its entities but for their creation.
pub mod Prelude
pub mod Json
pub mod Errors
pub mod Models
pub mod Contract
pub mod Agent
pub mod Integration
pub mod Protocol
pub mod Tests
