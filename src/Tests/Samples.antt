-- ===== src/Tests/Samples.antt =====
-- A host, a standard library and a connection to run the models on.
use ha_pi_manager_integratio.Prelude.{
  ℕ, zero, suc, pos, String, ε, ◌▹◌, true, false, Option, none, some, List, [], ◌∷◌, ok, is_char,
  if◌then◌else◌,
}
use ha_pi_manager_integratio.Json.{decoded, null, str, list, dict, Fields, end, field, strings}
use ha_pi_manager_integratio.Agent.World.{World, completed, missing, json}
use ha_pi_manager_integratio.Agent.Library.{Library, compiled}
use ha_pi_manager_integratio.Integration.Runtime.State.{Python, Runtime}

-- Bytes in a text: as many `a` as the number, then `b`.
abbrev pub unary : ℕ → String → String
unary zero s = "b" ▹ s
unary (suc n) s = "a" ▹ unary n s

abbrev pub sample_encode : List ℕ → String
sample_encode [] = ε
sample_encode (n ∷ ns) = unary n (sample_encode ns)

abbrev pub cons_some : ℕ → Option (List ℕ) → Option (List ℕ)
cons_some n none = none
cons_some n (some ns) = some (n ∷ ns)

abbrev pub read_unary : ℕ → String → Option (List ℕ)
read_unary zero ε = some []
read_unary (suc n) ε = none
read_unary n (c ▹ s) =
    let more = read_unary (suc n) s in
    let next = cons_some n (read_unary 0 s) in if is_char b'a' c then more else next

abbrev pub sample_decode : String → Option (List ℕ)
sample_decode = read_unary 0

-- A digest that depends on the message
abbrev pub digest : List ℕ → List ℕ → String
digest key [] = ε
digest key (zero ∷ rest) = "0" ▹ digest key rest
digest key (suc n ∷ rest) = "f" ▹ digest key rest

abbrev pub version_text : String
version_text = "AGENT_VERSION = \"0.2.5\""

abbrev pub sample_library : Library
sample_library = record {
  b64decode = sample_decode;
  decode = λ bytes. some version_text;
  encode = λ text. 1 ∷ [];
  loads = λ text. some (list (strings ("ssh.service" ∷ "cron.service" ∷ "ssh.service" ∷ [])));
  hmac_sha256 = digest;
  sha256 = λ bytes. "00";
  compile = λ text. compiled;
  dumps_size = λ response. 2;
}

abbrev zeros : ℕ → List ℕ
zeros zero = []
zeros (suc n) = 0 ∷ zeros n

abbrev pub sample_secret : List ℕ
sample_secret = zeros 32

abbrev pub sample_trust : Fields
sample_trust = field "hmac_secret" (str (sample_encode sample_secret)) end

abbrev pub sample_config : Fields
sample_config = field "services" (list (strings ("ssh.service" ∷ []))) end

abbrev pub sample_unit : String
sample_unit = "pi-manager-job-0123456789abcdef0123456789abcdef"

abbrev pub sample_job : Fields
sample_job = field "id" (str "pm-1") (
    field "type" (str "upgrade") (
      field "state" (str "running")
        (field "started_at" (str "12:00") (field "unit" (str sample_unit) end))))

abbrev pub sample_state : Fields
sample_state = field "job" (dict sample_job) end

abbrev pub active_output : String
active_output = "ActiveState=active\nSubState=running"

abbrev pub dead_output : String
dead_output = "ActiveState=inactive\nSubState=dead\nExecMainStatus=0"

-- A trusted host with a service and a running job, whose next command prints the text.
abbrev pub host : String → World
host output = record {
  config = json (dict sample_config);
  trust = json (dict sample_trust);
  state = json (dict sample_state);
  agent_file = 1 ∷ [];
  ctl_file = 2 ∷ [];
  sudoers_file = "";
  is_root = true;
  commands = [];
  outcomes = completed (pos 0) output "" ∷ [];
  readings = "12:01" ∷ [];
  events = [];
  read_faults = [];
}

-- A host without a job
abbrev pub idle_host : World
idle_host = record (host "") {
  state = missing;
  readings = "0123456789abcdef" ∷ "20260101" ∷ "12:01" ∷ [];
}

abbrev pub sample_python : Python
sample_python = record {
  loads = λ text. decoded (dict end);
  utf8_size = λ text. 2;
  to_int = λ option. some (pos 900);
}

-- An entry with a connection and without dangerous controls
abbrev pub sample_runtime : Runtime
sample_runtime = record {
  options = end;
  machine_id = null;
  client = true;
  helper_upgrade_attempted = false;
  package_check_attempted_at = none;
  sent = [];
  refreshes = 0;
  connects = [];
  answers = ok (record { returncode = pos 0; stdout = "{}"; stderr = "" }) ∷ [];
  clock = 5 ∷ [];
}
