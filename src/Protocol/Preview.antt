-- ===== src/Protocol/Preview.antt =====
-- Previews and audits of packages, from the helper to the integration.
use ha_pi_manager_integratio.Prelude.{ℕ, ◌≤◌, ◌≡◌, refl, String, str_len}
use ha_pi_manager_integratio.Json.{dict, Fields, get, is_true}
use ha_pi_manager_integratio.Models.{PackagePreviewInfo, PackageAuditInfo}
use ha_pi_manager_integratio.Contract.Fields.{mapping}
use ha_pi_manager_integratio.Contract.Maintenance.{parse_preview, parse_audit}
use ha_pi_manager_integratio.Agent.Maintenance.Public.{public_preview, public_audit}
use ha_pi_manager_integratio.Protocol.Accepts.{Accepts, Accepts-ok, Accepts-bind, Accepts-known}
use ha_pi_manager_integratio.Protocol.Texts.{
  shown_text, IsCountOf, string-short, optional_string-bounded_text, boolean-bool,
  count-bounded_count,
}

-- What the integration reads of a preview record of the state file
pub record IsPreviewOf (operation : String) (raw : Fields) (p : PackagePreviewInfo) : Type 0 where
  pub same_operation : p.operation ≡ operation
  pub last_checked : p.last_checked ≡ shown_text (get "last_checked" raw)
  pub upgraded : IsCountOf (get "upgraded" raw) p.upgraded
  pub newly_installed : IsCountOf (get "newly_installed" raw) p.newly_installed
  pub to_remove : IsCountOf (get "to_remove" raw) p.to_remove
  pub not_upgraded : IsCountOf (get "not_upgraded" raw) p.not_upgraded
  pub reboot_required : p.reboot_required ≡ is_true (get "reboot_required" raw)
  pub summary : p.summary ≡ shown_text (get "summary" raw)

pub parse_preview-public_preview :
    (operation : String) (raw : Fields) (index : ℕ)
    → str_len operation ≤ 4096
    → Accepts (IsPreviewOf operation raw) (parse_preview (public_preview operation raw) index)
unfolding parse_preview public_preview mapping
parse_preview-public_preview operation raw index short = Accepts-known _ _ refl (
    Accepts-known _ operation (string-short operation _ _ short) (
      Accepts-known _ _ (optional_string-bounded_text (get "last_checked" raw) _) (
        Accepts-bind (count-bounded_count (get "upgraded" raw) _) λ upgraded u.
          Accepts-bind (count-bounded_count (get "newly_installed" raw) _) λ newly n.
            Accepts-bind (count-bounded_count (get "to_remove" raw) _) λ removed r.
              Accepts-bind (count-bounded_count (get "not_upgraded" raw) _) λ kept k.
                Accepts-known _ _ (boolean-bool (is_true (get "reboot_required" raw)) _) (
                  Accepts-known _ _ (optional_string-bounded_text (get "summary" raw) _) (
                    Accepts-ok _ (record {
                      same_operation = refl;
                      last_checked = refl;
                      upgraded = u;
                      newly_installed = n;
                      to_remove = r;
                      not_upgraded = k;
                      reboot_required = refl;
                      summary = refl;
                    }))))))

-- What it reads of an audit
pub record IsAuditOf (raw : Fields) (a : PackageAuditInfo) : Type 0 where
  pub last_checked : a.last_checked ≡ shown_text (get "last_checked" raw)
  pub healthy : a.healthy ≡ is_true (get "healthy" raw)
  pub dpkg_issues : IsCountOf (get "dpkg_issues" raw) a.dpkg_issues
  pub apt_healthy : a.apt_healthy ≡ is_true (get "apt_healthy" raw)
  pub summary : a.summary ≡ shown_text (get "summary" raw)

pub parse_audit-public_audit :
    (raw : Fields) → Accepts (IsAuditOf raw) (parse_audit (public_audit (dict raw)))
unfolding parse_audit public_audit mapping
parse_audit-public_audit raw = Accepts-known _ _ refl (
    Accepts-known _ _ (optional_string-bounded_text (get "last_checked" raw) _) (
      Accepts-known _ _ (boolean-bool (is_true (get "healthy" raw)) _) (
        Accepts-bind (count-bounded_count (get "dpkg_issues" raw) _) λ issues n.
          Accepts-known _ _ (boolean-bool (is_true (get "apt_healthy" raw)) _) (
            Accepts-known _ _ (optional_string-bounded_text (get "summary" raw) _) (
              Accepts-ok _ (record {
                last_checked = refl;
                healthy = refl;
                dpkg_issues = n;
                apt_healthy = refl;
                summary = refl;
              }))))))
