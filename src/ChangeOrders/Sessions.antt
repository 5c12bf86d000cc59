-- ===== src/ChangeOrders/Sessions.antt =====
-- services/change_orders/service.py: capabilities, which a link carries, are exchanged for sessions.
use Prim.Native.String.{count as length}
use scope_guard.Base.{
  ℕ, ◌+◌, String, Bool, true, false, not, ◌&&◌, ◌||◌, Option, none, some, List, [], ◌∷◌, ◌++◌, ltb,
  leb, ◌==◌, is_none, is_some, if◌then◌else◌, find?, filter, get, put, Error, ok, Exec, pure,
  raise_if, or_raise, ◌>>=◌, ◌>>◌,
}
use scope_guard.Workers.Tables.{seconds}
use scope_guard.ChangeOrders.Tables.{
  ChangeOrderStatus, ChangeOrder, ProposalRevision, Purpose, ClientCapability, ClientSession,
  Access, order_id, revision_id, capability_id, session_id,
}

abbrev pub is_review : Purpose → Bool
is_review Purpose.review = true
is_review Purpose.receipt = false

abbrev pub is_approved : ChangeOrderStatus → Bool
is_approved ChangeOrderStatus.client_approved = true
is_approved _ = false

abbrev pub awaits_client : ChangeOrderStatus → Bool
awaits_client ChangeOrderStatus.awaiting_client_approval = true
awaits_client ChangeOrderStatus.send_pending = true
awaits_client _ = false

-- `expires_at is None or expires_at <= now`
abbrev pub has_expired : Option ℕ → ℕ → Bool
has_expired none now = true
has_expired (some t) now = leb t now

-- What an exchange gives: the capability, its token where it is known, and a session with its tokens.
pub record CapabilityCredentials : Type 0 where
  pub capability : ClientCapability
  pub token : String
  pub session : ClientSession
  pub session_token : String
  pub csrf_token : String

unfoldable pub is_receipt_for : ChangeOrder → ClientCapability → ClientCapability → Bool
is_receipt_for order source c =
    c.change_order_id == order.id
    && (c.revision_id == source.revision_id
        && (c.client_id == source.client_id && (not (is_review c.purpose) && is_none c.revoked_at)))

-- the later of two, by their creation
unfoldable pub newer : ClientCapability → Option ClientCapability → Option ClientCapability
newer a none = some a
newer a (some b) = if ltb a.created_at b.created_at then some b else some a

-- `ORDER BY created_at DESC`, the first row
unfoldable pub newest : List ClientCapability → Option ClientCapability
newest [] = none
newest (c ∷ rest) = newer c (newest rest)

-- an order that the client has approved
abbrev pub approved_order : Option ChangeOrder → Option ChangeOrder
approved_order none = none
approved_order (some o) = if is_approved o.status then some o else none

abbrev pub unexpired : Option ClientCapability → ℕ → Option ClientCapability
unexpired none now = none
unexpired (some c) now = if has_expired c.expires_at now then none else some c

-- a review capability that can be exchanged now
unfoldable pub is_usable : ℕ → ClientCapability → Bool
is_usable now c =
    is_review c.purpose
    && (is_some c.activated_at && (is_none c.revoked_at && not (has_expired c.expires_at now)))

abbrev pub usable : Option ClientCapability → ℕ → Option ClientCapability
usable none now = none
usable (some c) now = if is_usable now c then some c else none

-- the receipt that follows a review which has been consumed
unfoldable pub receipt_of : ClientCapability → ChangeOrder → ℕ → Access → Option ClientCapability
receipt_of c order now s = unexpired (newest (filter (is_receipt_for order c) s.capabilities)) now

-- a session that is neither revoked nor expired
abbrev pub live : Option ClientSession → ℕ → Option ClientSession
live none now = none
live (some r) now = if is_some r.revoked_at || leb r.expires_at now then none else some r

abbrev pub unrevoked : Option ClientCapability → Option ClientCapability
unrevoked none = none
unrevoked (some c) = if is_some c.revoked_at then none else some c

-- The rows that a session token opens.
abbrev pub Scope : Type 0
Scope = ClientSession × ClientCapability × ProposalRevision × ChangeOrder

-- `_hash`, SHA-256, is a parameter; the new tokens are those that `secrets` draws.
module _ (hash : String → ℕ) where
  unfoldable pub open_session :
      ClientCapability → Purpose → String → String → String → ℕ → Exec Access CapabilityCredentials
  open_session c purpose token session_token csrf_token now s =
      let row : ClientSession = record {
        id = s.next_id;
        capability_id = c.id;
        session_hash = hash session_token;
        csrf_hash = hash csrf_token;
        purpose = purpose;
        expires_at = now + seconds 86400;
        revoked_at = none;
      } in
      (
        ok (record {
          capability = c;
          token = token;
          session = row;
          session_token = session_token;
          csrf_token = csrf_token;
        }),
        record s { sessions = s.sessions ++ row ∷ []; next_id = s.next_id + 1 },
      )

  unfoldable pub has_token : String → ClientCapability → Bool
  has_token token c = c.token_hash == hash token

  module _ (session_token csrf_token : String) (now : ℕ) where
    unfoldable pub exchange_receipt : ClientCapability → Exec Access CapabilityCredentials
    exchange_receipt c = do
      order ← λ s. or_raise (approved_order (get c.change_order_id s.orders)) Error.validation s
      r ← λ s. or_raise (receipt_of c order now s) Error.validation s
      open_session r Purpose.receipt "" session_token csrf_token now

    unfoldable pub exchange_usable : String → ClientCapability → Exec Access CapabilityCredentials
    exchange_usable token c =
        if is_some c.consumed_at
        then exchange_receipt c
        else open_session c Purpose.review token session_token csrf_token now

    unfoldable pub exchange_capability : String → Exec Access CapabilityCredentials
    exchange_capability token = do
      raise_if (ltb (length token) 43) Error.validation
      c ← λ s. or_raise (usable (find? (has_token token) s.capabilities) now) Error.validation s
      exchange_usable token c

  unfoldable pub has_session : String → ClientSession → Bool
  has_session token r = r.session_hash == hash token

  abbrev pub other_csrf : Option String → ClientSession → Bool
  other_csrf none r = false
  other_csrf (some t) r = not (hash t == r.csrf_hash)

  -- `_session_scope`
  unfoldable pub session_scope : String → Option String → ℕ → Exec Access Scope
  session_scope token csrf now = do
    row ← λ s. or_raise (live (find? (has_session token) s.sessions) now) Error.validation s
    raise_if (other_csrf csrf row) Error.validation
    c ← λ s. or_raise (unrevoked (get row.capability_id s.capabilities)) Error.validation s
    order ← λ s. or_raise (get c.change_order_id s.orders) Error.validation s
    revision ← λ s. or_raise (get c.revision_id s.revisions) Error.validation s
    pure (row, c, revision, order)

  -- The guard of `read_client_review`; what it returns are columns of the rows.
  unfoldable pub read_client_review : String → ℕ → Exec Access (ProposalRevision × ChangeOrder)
  read_client_review token now = session_scope token none now >>= λ scope.
      let (row, c, revision, order) = scope in
      raise_if
        (not (is_review c.purpose) || (is_some c.consumed_at || not (awaits_client order.status)))
        Error.conflict
      >>= λ _. pure (revision, order)

  unfoldable pub save_session : ClientSession → Exec Access (Unit {0})
  save_session r s = (ok tt, record s { sessions = put r s.sessions })

  unfoldable pub refresh_client_session :
      String → String → String → ℕ → Exec Access CapabilityCredentials
  refresh_client_session token session_token csrf_token now =
      session_scope token none now >>= λ scope.
      let (row, c, revision, order) = scope in
      save_session (record row { revoked_at = some now }) >>= λ _.
      open_session c row.purpose "" session_token csrf_token now

-- `_revoke_capabilities`
unfoldable pub revoke : ℕ → ℕ → ClientCapability → ClientCapability
revoke order now c =
    if c.change_order_id == order && is_none c.revoked_at
    then record c { revoked_at = some now }
    else c

unfoldable pub revoke_each : ℕ → ℕ → List ClientCapability → List ClientCapability
revoke_each order now [] = []
revoke_each order now (c ∷ rest) = revoke order now c ∷ revoke_each order now rest

unfoldable pub revoke_capabilities : ℕ → ℕ → Exec Access (Unit {0})
revoke_capabilities order now s =
    (ok tt, record s { capabilities = revoke_each order now s.capabilities })
