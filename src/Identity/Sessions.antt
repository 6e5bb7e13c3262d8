-- ===== src/Identity/Sessions.antt =====
-- Issue of internal/identity/identity.go and auth/revoke of internal/service/extension.go: the sessions that are stored and revoked.
use sql_sentinel.Prelude.{
  ◌+◌, ◌-◌, ◌^◌, ◌%◌, Bool, false, not, ◌&&◌, ◌||◌, Option, none, some, List, [], ◌∷◌, ◌++◌, ◌==◌,
  length, if◌then◌else◌,
}
use sql_sentinel.Prelude.Bytes.{Bytes, bytes, bytes_eq}
use sql_sentinel.Kafka.Model.{Time}
use sql_sentinel.Identity.{
  unsigned, no_randomness, not_stored, invalid_principal, AuthTables, Claims, Session, valid, Auth,
  Principal, AuthErr, hour,
}

-- jwt.NewNumericDate keeps whole seconds.
abbrev pub whole_seconds : Time → Time
whole_seconds t = t - t % 10 ^ 9

abbrev pub claims_of : Principal → Bytes → Time → Claims
claims_of p id now = record {
  principal = p;
  issued_at = some (whole_seconds now);
  expires_at = whole_seconds (now + hour);
  id = id;
}

abbrev pub session_of : Principal → Bytes → Time → Session
session_of p id now = record {
  token_id = id;
  subject = p.subject;
  tenant = p.tenant;
  project = p.project;
  role = p.role;
  expires_at = now + hour;
  revoked_at = none;
}

-- The whole service, or one project of a tenant: `auth/revoke` of internal/service/extension.go.
unfoldable pub may_revoke : Principal → Session → Bool
unfolding bytes_eq
may_revoke p s =
    bytes_eq p.subject (bytes "operator")
      && (elim (p.tables) [ [] ↦ false | x ∷ xs ↦ bytes_eq x (bytes "*") && (length xs == 0) ])
    || bytes_eq s.tenant p.tenant && bytes_eq s.project p.project

-- UPDATE sql_sentinel_sessions SET revoked_at=UTC_TIMESTAMP(6) WHERE token_id=? …
unfoldable pub revoke : Principal → Bytes → Time → List Session → List Session
unfolding may_revoke bytes_eq
revoke p id now [] = []
revoke p id now (s ∷ sessions) =
    let rest = revoke p id now sessions in
    if bytes_eq s.token_id id && may_revoke p s
    then record s { revoked_at = some now } ∷ rest
    else s ∷ rest

-- The token and its identifier, and the error of the transaction if it failed.
pub record Issued : Type 0 where
  pub token : Bytes
  pub id : Bytes
  pub error : Option AuthErr

-- The transaction: both rows, or neither.
unfoldable pub store_session :
    Bool → Principal → Principal → Bytes → Bytes → Time → AuthTables → Issued × AuthTables
store_session fails issuer p token id now t =
    if fails then (record { token = token; id = id; error = some not_stored }, t) else (
      record { token = token; id = id; error = none },
      record {
        sessions = t.sessions ++ session_of p id now ∷ [];
        audit =
            t.audit
            ++ record {
              tenant = p.tenant;
              project = p.project;
              actor = issuer.subject;
              resource = id;
              role = p.role;
              subject = p.subject;
            }
              ∷ [];
      },
    )

abbrev no_token : AuthErr → AuthTables → Issued × AuthTables
no_token e t = (record { token = []; id = []; error = some e }, t)

-- `random` is the identifier that was drawn.
unfoldable pub issue :
    Auth → Bool → Option Bytes → Principal → Principal → Time → AuthTables → Issued × AuthTables
unfolding valid store_session
issue a fails random issuer p now t =
    if not (valid p) then no_token invalid_principal t else elim random [
      | none ↦ no_token no_randomness t
      | some id ↦ elim (a.jwt.sign a.key (claims_of p id now)) [
        | none ↦ no_token unsigned t
        | some token ↦ store_session fails issuer p token id now t
      ]
    ]
