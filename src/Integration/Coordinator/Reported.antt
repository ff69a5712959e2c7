-- ===== src/Integration/Coordinator/Reported.antt =====
-- What a refresh reports.
use ha_pi_manager_integratio.Prelude.{
  String, ◌==◌, ◌≡◌, refl, false, none, some, Result, ok, err, arith, prefixed_named,
}
use ha_pi_manager_integratio.Errors.{
  pi_manager, connection, authentication, fingerprint_unavailable, helper_protocol, service_name,
  update_already_running, helper_incompatible, fingerprint_mismatch, discovery, bootstrap,
  value_error, os_error, overflow_error, index_error, PyError, Exc, is_pi_manager_error, message,
}
use ha_pi_manager_integratio.Models.{HostStatus}
use ha_pi_manager_integratio.Integration.Runtime.State.{Python, Runtime}
use ha_pi_manager_integratio.Integration.Upgrade.{Codec, Material}
use ha_pi_manager_integratio.Integration.Upgrade.Current.{
  IsCurrent, async_upgrade_if_needed-IsCurrent,
}
use ha_pi_manager_integratio.Integration.Coordinator.{
  Coordinator, Failure, update_failed, uncaught, category_from_error, class_name,
  helper_text_or_class, report, refresh, async_update_data,
}
use ha_pi_manager_integratio.Prelude.Returns.{Returns-behind}

helper_text_or_class-named :
    (e : PyError) → (class_name e == "") ≡ false → (helper_text_or_class e == "") ≡ false
unfolding message
helper_text_or_class-named e h = ground (arith, h, prefixed_named "h" "elper_" (message e))

-- How the result of a refresh and the noted category belong together
pub data IsReported : Result Failure HostStatus → Coordinator → Type 0 where
  current :
      (status : HostStatus) (c : Coordinator)
      → IsCurrent status
      → c.last_error_category ≡ none
      → IsReported (ok status) c
  noted :
      (text category : String) (c : Coordinator)
      → c.last_error_category ≡ some category
      → (category == "") ≡ false
      → IsReported (err (update_failed text)) c
  foreign :
      (e : PyError) (c : Coordinator)
      → is_pi_manager_error e ≡ false
      → IsReported (err (uncaught e)) c

report-IsReported :
    (result : Exc HostStatus) (c : Coordinator)
    → ((status : HostStatus) → result ≡ ok status → IsCurrent status)
    → IsReported (report result c).0 (report result c).1
unfolding report category_from_error class_name is_pi_manager_error
report-IsReported (ok status) c holds = current status _ (holds status refl) refl
report-IsReported (err (pi_manager a)) c holds =
    noted _ _ _ refl (helper_text_or_class-named (pi_manager a) refl)
report-IsReported (err (authentication a)) c holds =
    noted _ _ _ refl (helper_text_or_class-named (authentication a) refl)
report-IsReported (err (fingerprint_unavailable a)) c holds =
    noted _ _ _ refl (helper_text_or_class-named (fingerprint_unavailable a) refl)
report-IsReported (err (helper_protocol a)) c holds =
    noted _ _ _ refl (helper_text_or_class-named (helper_protocol a) refl)
report-IsReported (err (service_name a)) c holds =
    noted _ _ _ refl (helper_text_or_class-named (service_name a) refl)
report-IsReported (err (update_already_running a)) c holds =
    noted _ _ _ refl (helper_text_or_class-named (update_already_running a) refl)
report-IsReported (err (discovery a b)) c holds =
    noted _ _ _ refl (helper_text_or_class-named (discovery a b) refl)
report-IsReported (err (bootstrap a b)) c holds =
    noted _ _ _ refl (helper_text_or_class-named (bootstrap a b) refl)
report-IsReported (err (connection a)) c holds = noted _ _ _ refl refl
report-IsReported (err (helper_incompatible a)) c holds = noted _ _ _ refl refl
report-IsReported (err (fingerprint_mismatch a b)) c holds = noted _ _ _ refl refl
report-IsReported (err (value_error a)) c holds = foreign _ _ refl
report-IsReported (err (os_error a)) c holds = foreign _ _ refl
report-IsReported (err overflow_error) c holds = foreign _ _ refl
report-IsReported (err index_error) c holds = foreign _ _ refl

refresh-IsCurrent :
    (py : Python) (codec : Codec) (material : Exc Material) (r : Runtime) (status : HostStatus)
    → (refresh py codec material r).0 ≡ ok status
    → IsCurrent status
unfolding refresh
refresh-IsCurrent py codec material r status e =
    (Returns-behind {P = λ (_ : Runtime). Unit {0}} {Q = IsCurrent} _ _ (record { at = λ _ _. tt })
        (λ _ _ _ _.
          Returns-behind _ _ (record { at = λ _ _. tt })
            (λ _ checked _ _. record {
              at = λ s current_status _ returned.
                  async_upgrade_if_needed-IsCurrent py codec material checked current_status s
                    returned;
            }))).at
      r status tt e

-- A refresh that returns gives a status of a current helper with its policy and clears the category;
-- one that fails notes a category; and no exception of the integration's own passes it.
pub async_update_data-IsReported :
    (py : Python) (codec : Codec) (material : Exc Material) (c : Coordinator)
    → IsReported (async_update_data py codec material c).0 (async_update_data py codec material c).1
unfolding async_update_data
async_update_data-IsReported py codec material c =
    report-IsReported (refresh py codec material c.runtime).0
      (record c { runtime = (refresh py codec material c.runtime).1 })
      (refresh-IsCurrent py codec material c.runtime)
