-- ===== src/Integration/Bootstrap/Removed.antt =====
-- Whatever fails, a bootstrap asks for the removal of every path that it wrote to.
use ha_pi_manager_integratio.Prelude.{
  ℕ, String, ◌==◌, ◌≡◌, refl, ap, sym, ◌∙◌, true, false, not, Option, none, List, [], ◌∷◌, ◌++◌,
  arith, all,
}
use mathlib.Core.Path.{subst}
use ha_pi_manager_integratio.Prelude.Exec.{◌>>=◌, unless}
use ha_pi_manager_integratio.Prelude.Preserves.{
  Preserves, Preserves-gets, Preserves-lift, Preserves-pure, Preserves-unless, Preserves-bind,
  Leads, Leads-later, Leads-now,
}
use ha_pi_manager_integratio.Models.{HostDiscovery, HostStatus}
use ha_pi_manager_integratio.Integration.Ssh.Words.{join}
use ha_pi_manager_integratio.Integration.Ssh.Client.{Client, Handshake, run, send}
use ha_pi_manager_integratio.Integration.Bootstrap.Session.{
  Library, Bundle, Options, Session, Boot, on_keys, then_always, translating,
}
use ha_pi_manager_integratio.Integration.Bootstrap.Whole.{
  prepare, cleanup, remove_path, remove_paths, async_bootstrap, deployment_error,
}
use ha_pi_manager_integratio.Integration.Bootstrap.Commands.{log_all}
use ha_pi_manager_integratio.Integration.Bootstrap.Tracked.{IsTracked, Listed}
use ha_pi_manager_integratio.Integration.Bootstrap.Noted.{Preserves-phases}

-- The commands that remove the paths, in the order of the list
abbrev pub removals : List String → List (String × Option String)
removals [] = []
removals (path ∷ paths) = (join ("/bin/rm" ∷ "-f" ∷ path ∷ []), none) ∷ removals paths

run-removal :
    (library : Library) (path : String) (c : Client)
    → c.connected ≡ true
    → (path == "") ≡ false
    → ((run library.utf8 ("/bin/rm" ∷ "-f" ∷ path ∷ []) none c).1.sent
        ≡ c.sent ++ ((join ("/bin/rm" ∷ "-f" ∷ path ∷ []), none) ∷ []))
      × ((run library.utf8 ("/bin/rm" ∷ "-f" ∷ path ∷ []) none c).1.connected ≡ true)
      × ((run library.utf8 ("/bin/rm" ∷ "-f" ∷ path ∷ []) none c).1.uploads ≡ c.uploads)
unfolding run send unless ◌>>=◌
run-removal library path c h n = ground arith

remove_paths-removals :
    (library : Library) (paths : List String) (s : Session)
    → s.client.connected ≡ true
    → all (λ path. not (path == "")) paths ≡ true
    → ((remove_paths library paths s).client.sent ≡ log_all s.client.sent (removals paths))
      × ((remove_paths library paths s).client.uploads ≡ s.client.uploads)
      × ((remove_paths library paths s).temporary_paths ≡ s.temporary_paths)
remove_paths-removals library [] s c n = (refl, refl, refl)
remove_paths-removals library (path ∷ paths) s c n =
    let (sent, connected, uploads) = run-removal library path s.client c (ground arith) in
    let (a, b, d) =
      remove_paths-removals library paths (remove_path library path s) connected (ground arith) in
    (a ∙ ap (λ log. log_all log (removals paths)) sent, b ∙ uploads, d)

-- Every upload went to a path on the list, and the last commands remove these paths.
pub record PathsAreRemoved (s : Session) : Type 0 where
  pub listed : Listed s.temporary_paths s.client.uploads
  pub log : List (String × Option String)
  pub removed : s.client.sent ≡ log_all log (removals s.temporary_paths)

-- An open connection over which nothing was uploaded yet
pub record IsFresh (s : Session) : Type 0 where
  pub connected : s.client.connected ≡ true
  pub no_uploads : s.client.uploads ≡ []
  pub no_paths : s.temporary_paths ≡ []

fresh-IsTracked : (s : Session) → IsFresh s → IsTracked s
fresh-IsTracked s fresh = record {
  connected = fresh.connected;
  listed =
      subst (λ (us : List (String × String × ℕ)). Listed s.temporary_paths us)
        (sym fresh.no_uploads) tt;
  named = ap (all (λ path. not (path == ""))) fresh.no_paths;
}

fresh-PathsAreRemoved : (s : Session) → IsFresh s → PathsAreRemoved s
fresh-PathsAreRemoved s fresh = record {
  listed = (fresh-IsTracked s fresh).listed;
  log = s.client.sent;
  removed = ap (λ paths. log_all s.client.sent (removals paths)) (sym fresh.no_paths);
}

cleanup-PathsAreRemoved :
    (library : Library) (s : Session) → IsTracked s → PathsAreRemoved (cleanup library s)
unfolding cleanup
cleanup-PathsAreRemoved library s held =
    let (sent, uploads, paths) =
      remove_paths-removals library s.temporary_paths s held.connected held.named in
    let after = remove_paths library s.temporary_paths s in
    record {
      listed =
          subst (λ (us : List (String × String × ℕ)). Listed after.temporary_paths us) (sym uploads)
            (subst (λ (ps : List String). Listed ps s.client.uploads) (sym paths) held.listed);
      log = s.client.sent;
      removed = sent ∙ ap (λ ps. log_all s.client.sent (removals ps)) (sym paths);
    }

prepare-IsFresh : (discovery : HostDiscovery) → Preserves IsFresh (prepare discovery)
unfolding prepare on_keys
prepare-IsFresh discovery = record {
  at = λ s fresh. record {
    connected = fresh.connected;
    no_uploads = fresh.no_uploads;
    no_paths = refl;
  };
}

guarded_phases :
    (library : Library) (m : Boot HostStatus)
    → Preserves IsTracked m
    → Leads IsFresh PathsAreRemoved (then_always (translating deployment_error m) (cleanup library))
unfolding then_always translating
guarded_phases library m k = record {
  at = λ s fresh. cleanup-PathsAreRemoved library (m s).1 (k.at s (fresh-IsTracked s fresh));
}

-- Whichever phase fails, in whichever way, every path that a bootstrap uploaded to is on its list, and
-- its last commands ask for the removal of all the paths of the list.
pub async_bootstrap-PathsAreRemoved :
    (library : Library) (bundle : Bundle) (discovery : HostDiscovery) (handshake : Handshake)
    (username password : String) (options : Options) (s : Session)
    → IsFresh s
    → PathsAreRemoved
        (async_bootstrap library bundle discovery handshake username password options s).1
unfolding async_bootstrap
async_bootstrap-PathsAreRemoved library bundle discovery handshake username password options s
      fresh =
    (Leads-later _ _ fresh-PathsAreRemoved (Preserves-lift _) (λ _.
        Leads-later _ _ fresh-PathsAreRemoved (Preserves-unless _ _) (λ _.
          Leads-later _ _ fresh-PathsAreRemoved (Preserves-unless _ _) (λ _.
            Leads-later _ _ fresh-PathsAreRemoved (Preserves-unless _ _) (λ _.
              Leads-later _ _ fresh-PathsAreRemoved (Preserves-lift _) (λ services.
                Leads-later _ _ fresh-PathsAreRemoved (prepare-IsFresh discovery) (λ key.
                  Leads-now _ _
                    (guarded_phases library _ (
                      Preserves-phases library bundle discovery handshake username password key
                        services options))
                    (λ _. Preserves-bind _ _ (Preserves-lift _) (λ version.
                      Preserves-bind _ _ (Preserves-gets _)
                        (λ changed. Preserves-pure _)))))))))).at
      s fresh
