-- ===== src/Integration/Runtime.antt =====
-- custom_components/pi_manager/runtime.py: the connection of one config entry. What lies behind SSH
-- answers from lists: how an attempt to connect ends, how a command ends, and what the clock shows.
pub mod State
pub mod Operations
pub mod Configure
