-- ===== src/ChangeOrders/Tests.antt =====
-- The access of a concrete order, and its acceptance that is repeated.
use Prim.Native.String.{count as length}
use scope_guard.Base.{some, ◌≡◌, ◌≢◌, refl, String, Option, ok, find?, ◌>>=◌, get}
use scope_guard.ChangeOrders.Tables.{ChangeOrderStatus, Access, capability_id, order_id}
use scope_guard.ChangeOrders.Sessions.{
  CapabilityCredentials, Scope, session_scope, exchange_capability, revoke_capabilities,
  exchange_usable, open_session, has_token, is_usable, has_session,
}
use scope_guard.ChangeOrders.Acceptance.{accept_client}
use scope_guard.ChangeOrders.Again.{settled_part, accept_client_again}
use scope_guard.ChangeOrders.Revoked.{revoked_shut}
use scope_guard.ChangeOrders.Samples.{
  settled, a_desk, an_order, a_revision, a_session, a_capability, an_access, a_token, a_session,
}

-- before the revocation the token is exchanged
exchanges :
    (exchange_capability length "abc" "de" 20 a_token an_access).0
    ≡ ok (record {
      capability = a_capability;
      token = a_token;
      session = a_session;
      session_token = "abc";
      csrf_token = "de";
    })
unfolding exchange_capability exchange_usable open_session has_token is_usable find? ◌>>=◌
exchanges = refl

revoked_shut_example :
    ((token : String) (csrf : Option String) (x : Scope) (u : Access)
      → session_scope length token csrf 40 (revoke_capabilities 1 30 an_access).1 ≡ (ok x, u)
      → x.1.change_order_id ≢ 1)
    × ((session_token csrf_token token : String) (x : CapabilityCredentials) (u : Access)
        → exchange_capability length session_token csrf_token 40 token
            (revoke_capabilities 1 30 an_access).1
          ≡ (ok x, u)
        → x.capability.change_order_id ≢ 1)
revoked_shut_example = revoked_shut length 1 30 40 an_access

abbrev settled_scope : Scope
settled_scope = (
  record a_session { session_hash = 3; expires_at = 900 },
  record a_capability { consumed_at = some 45 },
  a_revision,
  record an_order { status = ChangeOrderStatus.client_approved },
)

in_scope : (session_scope length "abc" (some "de") 50 settled.access).0 ≡ ok settled_scope
unfolding find? ◌>>=◌ get has_session session_scope
in_scope = refl

accept_client_again_example :
    settled_part (accept_client a_desk a_token "abc" "de" 16 50 "abc" "de" 1 3 4 9 "key" settled).1
    ≡ settled_part settled
accept_client_again_example =
    accept_client_again a_desk a_token "abc" "de" 16 50 "abc" "de" "key" 1 3 4 9 settled
      settled_scope in_scope refl
