-- ===== src/Integration/Ssh.antt =====
-- custom_components/pi_manager/ssh.py: the connection with its host key, and the commands.
pub mod Words
pub mod Joined
pub mod Answered
pub mod Client
pub mod Trust
