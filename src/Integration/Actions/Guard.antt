-- ===== src/Integration/Actions/Guard.antt =====
-- What an action may send, by the option that enables dangerous controls.
use ha_pi_manager_integratio.Prelude.{
  ℕ, String, ◌==◌, ◌≡◌, refl, sym, ap, ◌∙◌, Bool, true, false, ◌&&◌, List, [], ◌∷◌, ◌++◌, ok, err,
  all, arith, if◌then◌else◌,
}
use mathlib.Core.Path.{subst}
use ha_pi_manager_integratio.Prelude.Exec.{continue, ◌>>=◌, pure, raise, lift}
use ha_pi_manager_integratio.Errors.{PyError, Exc}
use ha_pi_manager_integratio.Json.{bool, get_or}
use ha_pi_manager_integratio.Agent.Services.{contains}
use ha_pi_manager_integratio.Integration.Runtime.State.{
  Python, Runtime, Io, truthy, ensure_connected, exchange, run_sudo_nopass, drop_client_on,
  run_helper,
}
use ha_pi_manager_integratio.Integration.Runtime.Operations.{
  query, loop_time, note_attempt, async_check_updates, run_operation,
}
use ha_pi_manager_integratio.Integration.Actions.{
  Action, refresh, check_updates, preview_upgrade, preview_dist_upgrade, preview_autoremove,
  audit_packages, show_package_holds, failed_services, request_refresh, require_dangerous,
  query_then_refresh, dangerous_then_refresh, dangerous_only, perform,
}

-- The operations of the helper that an action may ask for in any case
abbrev pub harmless : List String
harmless =
    "check-updates" ∷ "preview-upgrade" ∷ "preview-dist-upgrade" ∷ "preview-autoremove"
    ∷ "audit-packages" ∷ "show-package-holds" ∷ "failed-services" ∷ []

abbrev pub is_harmless : List String → Bool
is_harmless (operation ∷ json ∷ []) = (json == "--json") && contains operation harmless
is_harmless _ = false

append_nil : (xs : List (List String)) → xs ++ [] ≡ xs
append_nil [] = refl
append_nil (x ∷ xs) = ap (λ ys. x ∷ ys) (append_nil xs)

append_assoc : (xs ys zs : List (List String)) → (xs ++ ys) ++ zs ≡ xs ++ (ys ++ zs)
append_assoc [] ys zs = refl
append_assoc (x ∷ xs) ys zs = ap (λ us. x ∷ us) (append_assoc xs ys zs)

all-append :
    (xs ys : List (List String))
    → all is_harmless xs ≡ true
    → all is_harmless ys ≡ true
    → all is_harmless (xs ++ ys) ≡ true
all-append [] ys a b = b
all-append (x ∷ xs) ys a b = ground (arith, all-append xs ys)

ensure_connected-same :
    (w : Runtime)
    → ((ensure_connected w).1.options ≡ w.options) × ((ensure_connected w).1.sent ≡ w.sent)
unfolding ensure_connected
ensure_connected-same w = ground arith

exchange-adds :
    (args : List String) (w : Runtime)
    → ((exchange args w).1.options ≡ w.options) × ((exchange args w).1.sent ≡ w.sent ++ (args ∷ []))
unfolding exchange run_sudo_nopass drop_client_on
exchange-adds args w = ground arith

require_dangerous-stops :
    {A : Type 0} (f : Unit {0} → Io A) (w : Runtime)
    → truthy (get_or (bool false) "enable_dangerous_controls" w.options) ≡ false
    → ((require_dangerous >>= f) w).1 ≡ w
unfolding ◌>>=◌ require_dangerous
require_dangerous-stops f w off = ground arith

-- Dangerous controls are off, and only harmless operations have been sent since the state `before`.
pub record Restrained (before : List (List String)) (r : Runtime) : Type 0 where
  pub off : truthy (get_or (bool false) "enable_dangerous_controls" r.options) ≡ false
  pub since : (new : List (List String)) × (r.sent ≡ before ++ new) × (all is_harmless new ≡ true)

record Kept {A : Type 0} (before : List (List String)) (m : Io A) : Type 0 where
  at : (r : Runtime) → Restrained before r → Restrained before (m r).1

module _ {before : List (List String)} {A B : Type 0} where
  continue-Kept :
      (r : Exc A) (f : A → Io B)
      → ((a : A) → Kept before (f a))
      → (w : Runtime) → Restrained before w
      → Restrained before (continue r f w).1
  continue-Kept (ok a) f kept w h = (kept a).at w h
  continue-Kept (err e) f kept w h = h

  Kept-bind :
      {m : Io A} {f : A → Io B}
      → Kept before m
      → ((a : A) → Kept before (f a))
      → Kept before (m >>= f)
  unfolding ◌>>=◌
  Kept-bind {m = m} {f = f} hm hf = record {
    at = λ w h. continue-Kept (m w).0 f hf (m w).1 (hm.at w h);
  }

module _ {before : List (List String)} {A : Type 0} where
  Kept-lift : (r : Exc A) → Kept before (lift r)
  unfolding lift
  Kept-lift r = record { at = λ w h. h }

  Kept-pure : (a : A) → Kept before (pure a)
  unfolding pure
  Kept-pure a = record { at = λ w h. h }

  Kept-raise : (e : PyError) → Kept {A = A} before (raise e)
  unfolding raise
  Kept-raise e = record { at = λ w h. h }

  Kept-if :
      (b : Bool) (m n : Io A) → Kept before m → Kept before n → Kept before (if b then m else n)
  Kept-if true m n hm hn = hm
  Kept-if false m n hm hn = hn

  -- What stands behind `_require_dangerous` does not run.
  Kept-require : (f : Unit {0} → Io A) → Kept before (require_dangerous >>= f)
  unfolding ◌>>=◌ require_dangerous
  Kept-require f = record {
    at = λ w h. subst (Restrained before) (sym (require_dangerous-stops f w h.off)) h;
  }

module _ {before : List (List String)} where
  Restrained-add :
      (w v : Runtime) (more : List (List String))
      → v.options ≡ w.options
      → v.sent ≡ w.sent ++ more
      → all is_harmless more ≡ true
      → Restrained before w
      → Restrained before v
  Restrained-add w v more o s a h = record {
    off =
        ap (λ options. truthy (get_or (bool false) "enable_dangerous_controls" options)) o ∙ h.off;
    since =
        let (new, t, b) = h.since in
        (
          new ++ more,
          s ∙ ap (λ sent. sent ++ more) t ∙ append_assoc before new more,
          all-append new more b a,
        );
  }

  ensure_connected-Kept : Kept before ensure_connected
  ensure_connected-Kept = record {
    at = λ w h.
        let (o, s) = ensure_connected-same w in
        Restrained-add w _ [] o (s ∙ sym (append_nil w.sent)) refl h;
  }

  exchange-Kept : (args : List String) → is_harmless args ≡ true → Kept before (exchange args)
  exchange-Kept args harmless = record {
    at = λ w h.
        let (o, s) = exchange-adds args w in Restrained-add w _ (args ∷ []) o s (ground arith) h;
  }

  request_refresh-Kept : Kept before request_refresh
  unfolding request_refresh
  request_refresh-Kept = record { at = λ w h. record { off = h.off; since = h.since } }

  loop_time-Kept : Kept before loop_time
  unfolding loop_time
  loop_time-Kept = record { at = λ w h. record { off = h.off; since = h.since } }

  note_attempt-Kept : (now : ℕ) → Kept before (note_attempt now)
  unfolding note_attempt
  note_attempt-Kept now = record { at = λ w h. record { off = h.off; since = h.since } }

ruleset kept_rules = (
  Kept-bind, Kept-lift, Kept-pure, Kept-raise, Kept-if, Kept-require, ensure_connected-Kept,
  request_refresh-Kept, loop_time-Kept, note_attempt-Kept,
)

module _ {before : List (List String)} (py : Python) where
  run_helper-Kept :
      (args : List String) → is_harmless args ≡ true → Kept before (run_helper py args)
  unfolding run_helper
  run_helper-Kept args h = search (kept_rules, exchange-Kept args h) depth 16

  query-Kept : (args : List String) → is_harmless args ≡ true → Kept before (query py args)
  unfolding query
  query-Kept args h = search (kept_rules, run_helper-Kept args h) depth 16

  run_operation-Kept :
      (operation : String)
      → contains operation harmless ≡ true
      → Kept before (run_operation py operation)
  unfolding run_operation
  run_operation-Kept operation h = query-Kept (operation ∷ "--json" ∷ []) h

  query_then_refresh-Kept :
      (operation : String)
      → contains operation harmless ≡ true
      → Kept before (query_then_refresh py operation)
  unfolding query_then_refresh
  query_then_refresh-Kept operation h = search (kept_rules, run_operation-Kept operation h) depth 16

  async_check_updates-Kept : Kept before (async_check_updates py)
  unfolding async_check_updates
  async_check_updates-Kept =
      Kept-bind (query-Kept ("check-updates" ∷ "--json" ∷ []) refl) λ payload.
        Kept-bind (Kept-lift _) λ updates.
          Kept-bind loop_time-Kept λ now. Kept-bind (note_attempt-Kept now) λ _. Kept-pure _

  perform-Kept : (action : Action) → Kept before (perform py action)
  unfolding perform dangerous_then_refresh dangerous_only
  perform-Kept refresh = request_refresh-Kept
  perform-Kept check_updates = search (kept_rules, async_check_updates-Kept) depth 16
  perform-Kept preview_upgrade = query_then_refresh-Kept "preview-upgrade" refl
  perform-Kept preview_dist_upgrade = query_then_refresh-Kept "preview-dist-upgrade" refl
  perform-Kept preview_autoremove = query_then_refresh-Kept "preview-autoremove" refl
  perform-Kept audit_packages = query_then_refresh-Kept "audit-packages" refl
  perform-Kept show_package_holds = query_then_refresh-Kept "show-package-holds" refl
  perform-Kept failed_services = query_then_refresh-Kept "failed-services" refl
  perform-Kept _ = Kept-require _

-- While dangerous controls are off, any action, whether it returns or raises, sends only update
-- checks, previews, audits and lists to the helper, and leaves the controls off.
pub perform-Restrained :
    (py : Python) (action : Action) (r : Runtime)
    → truthy (get_or (bool false) "enable_dangerous_controls" r.options) ≡ false
    → Restrained r.sent (perform py action r).1
perform-Restrained py action r off =
    (perform-Kept py action).at r
      (record { off = off; since = ([], sym (append_nil r.sent), refl) })
