-- ===== src/Agent/Library.antt =====
-- The functions of Python's standard library that the helper takes its inputs apart with: base64,
-- UTF-8, JSON, HMAC-SHA256 and the compiler. Bytes are numbers.
use ha_pi_manager_integratio.Prelude.{ℕ, String, Option, List}
use ha_pi_manager_integratio.Json.{Value, Fields}

pub data Compiled : Type 0 where
  compiled syntax_error null_byte : Compiled

pub record Library : Type 0 where
  -- `base64.b64decode(text.encode("ascii"), validate=True)`
  pub b64decode : String → Option (List ℕ)
  -- `raw.decode("utf-8")`, `text.encode("utf-8")`
  pub decode : List ℕ → Option String
  pub encode : String → List ℕ
  -- `json.loads`
  pub loads : String → Option Value
  -- `hmac.new(secret, message, hashlib.sha256).hexdigest()`, `hashlib.sha256(source).hexdigest()`
  pub hmac_sha256 : List ℕ → List ℕ → String
  pub sha256 : List ℕ → String
  -- `compile(text, path, "exec")`
  pub compile : String → Compiled
  -- `len(json.dumps(response, separators=(",", ":"), sort_keys=True).encode("utf-8"))`
  pub dumps_size : Fields → ℕ
