-- ===== src/Agent/Names/Safe.antt =====
-- A valid service name is a harmless argument.
use ha_pi_manager_integratio.Prelude.{Char, ◌≡◌, true, false, arith, char_in}
use ha_pi_manager_integratio.Agent.Names.{is_service_char, shell_characters}

-- The expression alone excludes the characters that a shell or a terminal reads.
service_char-not_shell : (c : Char) → is_service_char c ≡ true → char_in shell_characters c ≡ false
service_char-not_shell c h = ground arith
