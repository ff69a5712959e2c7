-- ===== src/Integration/Sudoers/Agreement.antt =====
-- The two checks of a sudo policy, the integration's and the helper's, agree.
use ha_pi_manager_integratio.Prelude.{
  String, ◌<>◌, ◌≡◌, refl, Bool, true, false, ◌&&◌, none, List, [], ◌∷◌, ok, err, nat_eq, leb,
  length, arith,
}
use ha_pi_manager_integratio.Prelude.Results.{◌>>=◌}
use ha_pi_manager_integratio.Errors.{Exc}
use ha_pi_manager_integratio.Agent.Constants.{max_sudoers_bytes}
use ha_pi_manager_integratio.Agent.Names.{is_version}
use ha_pi_manager_integratio.Agent.Services.{contains}
use ha_pi_manager_integratio.Agent.Library.{Library}
use ha_pi_manager_integratio.Agent.Sudoers.{
  policy_marker, comments_of, policy_lines_of, policy_line_valid, policy_valid, count_text,
}
use ha_pi_manager_integratio.Integration.Sudoers.{command_text, check_policy_line, validate_policy}

-- The integration accepts a policy without a given user.
abbrev pub is_accepted : Exc (Unit {0}) → Bool
is_accepted (ok _) = true
is_accepted (err _) = false

count_text-contains :
    (x : String) (xs : List String) → nat_eq (count_text x xs) 1 ≡ true → contains x xs ≡ true
count_text-contains x [] h = cc
count_text-contains x (y ∷ ys) h = ground (arith, count_text-contains x ys)

check_policy_line-policy_line_valid :
    (lines : List String) → is_accepted (check_policy_line lines none) ≡ policy_line_valid lines
unfolding check_policy_line command_text policy_line_valid ◌>>=◌
check_policy_line-policy_line_valid [] = refl
check_policy_line-policy_line_valid (line ∷ []) = ground arith
check_policy_line-policy_line_valid (_ ∷ _ ∷ _) = refl

-- The helper's check of a policy is the integration's check for any user, with a bound on the size,
-- a version of three numbers, and the marker in exactly one comment.
pub policy_valid-is_accepted :
    (lib : Library) (content version : String)
    → policy_valid lib content version ≡ (
        leb (length (lib.encode content)) max_sudoers_bytes
        && is_version version
        && nat_eq (count_text (policy_marker <> version) (comments_of content)) 1
        && is_accepted (validate_policy content none version))
unfolding policy_valid validate_policy ◌>>=◌
policy_valid-is_accepted lib content version = ground (
  arith,
  check_policy_line-policy_line_valid (policy_lines_of content),
  count_text-contains (policy_marker <> version) (comments_of content),
)
