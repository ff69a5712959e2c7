-- ===== src/Tests/Ssh.antt =====
-- The connection and its commands at concrete inputs.
use ha_pi_manager_integratio.Prelude.{pos, refl, true, false, none, some, [], ◌∷◌}
use ha_pi_manager_integratio.Prelude.Exec.{◌>>=◌}
use ha_pi_manager_integratio.Json.{Fields, end, field, str, dict}
use ha_pi_manager_integratio.Integration.Ssh.Client.{
  Client, Utf8, presents, granted, finished, carried, connect, note_fingerprint, verify_fingerprint,
  open_connection, require_fingerprint, run, send, bounded,
}
use ha_pi_manager_integratio.Integration.Ssh.Trust.{
  IsTrusted, connect-IsTrusted, WasSent, run-WasSent,
}
use ha_pi_manager_integratio.Protocol.Accepts.{Accepts}
use ha_pi_manager_integratio.Protocol.Maintenance.{
  IsMaintenanceOf, parse_maintenance-public_maintenance,
}
use ha_pi_manager_integratio.Contract.Maintenance.{parse_maintenance}
use ha_pi_manager_integratio.Agent.Maintenance.Public.{public_maintenance}

abbrev pub sample_utf8 : Utf8
sample_utf8 = record { encode = λ text. []; decode_ignore = λ bytes. "" }

abbrev pub closed_client : Client
closed_client = record {
  fingerprint = none;
  connected = false;
  sent = [];
  outcomes = finished (pos 0) "pi" "" ∷ [];
  uploads = [];
  transfers = carried ∷ [];
}

abbrev pub open_client : Client
open_client = record closed_client { fingerprint = some "SHA256:key"; connected = true }

connect-IsTrusted_example :
    IsTrusted
      (some "SHA256:key")
      false
      (connect (some "SHA256:key") false (presents "SHA256:key" granted) closed_client).1
unfolding connect ◌>>=◌ note_fingerprint verify_fingerprint open_connection require_fingerprint
connect-IsTrusted_example =
    connect-IsTrusted (some "SHA256:key") false (presents "SHA256:key" granted) closed_client refl
      refl

run-WasSent_example :
    WasSent
      ("/bin/echo" ∷ "it's" ∷ [])
      none
      open_client
      (run sample_utf8 ("/bin/echo" ∷ "it's" ∷ []) none open_client).1
unfolding run ◌>>=◌ send bounded
run-WasSent_example =
    run-WasSent sample_utf8 ("/bin/echo" ∷ "it's" ∷ []) none open_client
      (record { returncode = pos 0; stdout = "pi"; stderr = "" }) refl

abbrev sample_record : Fields
sample_record = field "audit" (dict (field "healthy" (str "yes") end)) end

parse_maintenance-public_maintenance_example :
    Accepts
      (IsMaintenanceOf sample_record)
      (parse_maintenance (public_maintenance (dict sample_record)))
parse_maintenance-public_maintenance_example = parse_maintenance-public_maintenance sample_record
