-- ===== src/Oidc/Revocation.antt =====
-- What revoking a device session ends (RevokeByID of
-- internal/oidc/postgres/device_session_repo.go).
use hss_science.Base.{◌∙◌, [], ◌≡◌, Bool, String, List, ◌>>=◌, none, ◌≢◌, err, arith, ◌∙◌}
use hss_science.Base.Sql.Rows.{find, count, count-eq-zero, update_of_none}
use hss_science.Oidc.DeviceRepo.{revoke_body, revoke_by_id, active_of, revoked}
use hss_science.Oidc.Domain.{DeviceSession}
use hss_science.Oidc.Tables.{OidcWorld}
use hss_science.Base.Sql.{statement, transaction, query}
use hss_science.Domerr.{not_found}

count-ne-zero :
    (p : DeviceSession → Bool) (xs : List DeviceSession) → count p xs ≢ 0 → find p xs ≢ none
count-ne-zero p xs h e = h ((count-eq-zero p xs).1 e)

-- A session that is not an active one of the caller is not found, and everything stays.
pub revoke_by_id_foreign :
    (id user : String) (w : OidcWorld)
    → find (active_of id user) w.tables.device_sessions ≡ none
    → w.faults ≡ []
    → revoke_by_id id user w ≡ (err not_found, w)
unfolding revoke_by_id revoke_body transaction query statement ◌>>=◌
revoke_by_id_foreign id user w e calm = ground (
  arith,
  (count-eq-zero (active_of id user) w.tables.device_sessions).1 e,
  update_of_none (active_of id user) (revoked w.clock) w.tables.device_sessions e,
)
