-- ===== src/Integration/Bootstrap/Tracked.antt =====
-- The paths that a bootstrap writes to, and their removal.
use ha_pi_manager_integratio.Prelude.{
  ℕ, String, ◌==◌, ◌≡◌, sym, ◌∙◌, true, false, not, Option, some, List, [], ◌∷◌, ◌++◌, arith,
  eq_refl, append, all, All, All-append,
}
use mathlib.Core.Path.{subst}
use ha_pi_manager_integratio.Prelude.Exec.{◌>>=◌, unless}
use ha_pi_manager_integratio.Prelude.Preserves.{Preserves, continue-preserves}
use ha_pi_manager_integratio.Agent.Services.{contains}
use ha_pi_manager_integratio.Integration.Ssh.Client.{
  Client, Ssh, run, run_sudo, send, transfer, upload_text,
}
use ha_pi_manager_integratio.Integration.Bootstrap.Session.{
  Library, Session, Boot, on_client, add_temporary,
}

-- Every upload went to a path on the list, and the first connection is still open.
pub record IsTracked (s : Session) : Type 0 where
  pub connected : s.client.connected ≡ true
  pub listed :
      All (λ (u : String × String × ℕ). contains u.0 s.temporary_paths ≡ true) s.client.uploads
  pub named : all (λ path. not (path == "")) s.temporary_paths ≡ true

abbrev pub Listed : List String → List (String × String × ℕ) → Type 0
Listed paths = All (λ (u : String × String × ℕ). contains u.0 paths ≡ true)

Preserves-on_client :
    {A : Type 0} (m : Ssh A)
    → ((c : Client) → ((m c).1.connected ≡ c.connected) × ((m c).1.uploads ≡ c.uploads))
    → Preserves IsTracked (on_client m)
unfolding on_client
Preserves-on_client m keeps = record {
  at = λ s held. record {
    connected = (keeps s.client).0 ∙ held.connected;
    listed = subst (Listed s.temporary_paths) (sym (keeps s.client).1) held.listed;
    named = held.named;
  };
}

run-client :
    (library : Library) (args : List String) (input : Option String) (c : Client)
    → ((run library.utf8 args input c).1.connected ≡ c.connected)
      × ((run library.utf8 args input c).1.uploads ≡ c.uploads)
unfolding run send unless ◌>>=◌
run-client library args input c = ground arith

run_sudo-client :
    (library : Library) (args : List String) (password : String) (c : Client)
    → ((run_sudo library.utf8 args password c).1.connected ≡ c.connected)
      × ((run_sudo library.utf8 args password c).1.uploads ≡ c.uploads)
unfolding run_sudo unless ◌>>=◌
run_sudo-client library args password c = ground (
  arith,
  run-client library ("/usr/bin/sudo" ∷ "-S" ∷ "-p=" ∷ "--" ∷ args) (some (append password "\n")) c,
)

pub Preserves-run :
    (library : Library) (args : List String) (input : Option String)
    → Preserves IsTracked (on_client (run library.utf8 args input))
Preserves-run library args input = Preserves-on_client _ (run-client library args input)

pub Preserves-run_sudo :
    (library : Library) (args : List String) (password : String)
    → Preserves IsTracked (on_client (run_sudo library.utf8 args password))
Preserves-run_sudo library args password =
    Preserves-on_client _ (run_sudo-client library args password)

-- The state after an upload to a path that was put on the list
contains-snoc :
    (path other : String) (paths : List String)
    → contains path paths ≡ true
    → contains path (paths ++ (other ∷ [])) ≡ true
contains-snoc path other [] h = cc
contains-snoc path other (p ∷ paths) h = ground (arith, contains-snoc path other paths)

contains-last : (path : String) (paths : List String) → contains path (paths ++ (path ∷ [])) ≡ true
contains-last path [] = ground (arith, eq_refl path)
contains-last path (p ∷ paths) = ground (arith, contains-last path paths)

named-snoc :
    (path : String) (paths : List String)
    → (path == "") ≡ false
    → all (λ item. not (item == "")) paths ≡ true
    → all (λ item. not (item == "")) (paths ++ (path ∷ [])) ≡ true
named-snoc path [] n h = ground arith
named-snoc path (p ∷ paths) n h = ground (arith, named-snoc path paths n)

Listed-snoc :
    (other : String) (paths : List String) (us : List (String × String × ℕ))
    → Listed paths us
    → Listed (paths ++ (other ∷ [])) us
Listed-snoc other paths [] h = tt
Listed-snoc other paths (u ∷ us) h =
    (contains-snoc u.0 other paths h.0, Listed-snoc other paths us h.1)

added :
    (path : String) (s : Session)
    → (path == "") ≡ false
    → IsTracked s
    → IsTracked (add_temporary path s).1
unfolding add_temporary
added path s n held = record {
  connected = held.connected;
  listed = Listed-snoc path s.temporary_paths s.client.uploads held.listed;
  named = named-snoc path s.temporary_paths n held.named;
}

upload_text-client :
    (path content : String) (mode : ℕ) (c : Client)
    → c.connected ≡ true
    → ((upload_text path content mode c).1.connected ≡ true)
      × ((upload_text path content mode c).1.uploads ≡ c.uploads ++ ((path, content, mode) ∷ []))
unfolding upload_text transfer unless ◌>>=◌
upload_text-client path content mode c h = ground arith

uploaded :
    (path content : String) (mode : ℕ) (s : Session)
    → contains path s.temporary_paths ≡ true
    → IsTracked s
    → IsTracked (on_client (upload_text path content mode) s).1
unfolding on_client
uploaded path content mode s listed held =
    let u = upload_text-client path content mode s.client held.connected in
    record {
      connected = u.0;
      listed =
          subst (Listed s.temporary_paths) (sym u.1)
            (All-append _ s.client.uploads ((path, content, mode) ∷ []) held.listed (listed, tt));
      named = held.named;
    }

-- An upload to a path that is noted first
pub Preserves-noted_upload :
    {B : Type 0} (path content : String) (mode : ℕ) (rest : Unit {0} → Boot B)
    → (path == "") ≡ false
    → ((u : Unit {0}) → Preserves IsTracked (rest u))
    → Preserves IsTracked
        (add_temporary path >>= λ _. (on_client (upload_text path content mode) >>= rest))
unfolding ◌>>=◌ add_temporary
Preserves-noted_upload path content mode rest n k = record {
  at = λ s held. continue-preserves _ rest _ k (
      uploaded path content mode (add_temporary path s).1 (contains-last path s.temporary_paths)
        (added path s n held));
}
