-- ===== src/Identity.antt =====
-- internal/identity/identity.go: the validity of a principal, the table of permissions, and
-- Authenticate. The library of JSON web tokens is a parameter (sign and parse), and so is SHA-256.
pub mod Tokens
pub mod Sessions
use sql_sentinel.Prelude.{
  ℕ, suc, ◌+◌, ◌-◌, ◌*◌, ◌^◌, ◌%◌, zero, Bool, true, false, not, ◌&&◌, ◌||◌, Option, none, some,
  ◌⊎◌, inl, inr, List, [], ◌∷◌, ◌++◌, ltb, leb, ◌==◌, any, all, length, if◌then◌else◌, ◌≡◌,
}
use sql_sentinel.Prelude.Bytes.{Bytes, bytes, bytes_eq, mem_bytes, has_prefix, in_range}
use sql_sentinel.Kafka.Model.{Time}

pub record Principal : Type 0 where
  pub subject : Bytes
  pub role : Bytes
  pub tenant : Bytes
  pub project : Bytes
  pub tables : List Bytes

abbrev pub is_name_byte : ℕ → Bool
is_name_byte c =
    in_range b'A' b'Z' c
    || in_range b'a' b'z' c
    || in_range b'0' b'9' c
    || (c == b'_')
    || (c == b'-')

-- ^[A-Za-z0-9_-]{1,64}$
unfoldable pub is_name : Bytes → Bool
is_name s = all is_name_byte s && leb 1 (length s) && leb (length s) 64

unfoldable pub valid : Principal → Bool
unfolding is_name mem_bytes
valid p =
    if ltb 16 (length p.tables)
    then false
    else all is_name p.tables
      && is_name p.subject
      && is_name p.tenant
      && is_name p.project
      && mem_bytes p.role (bytes "admin" ∷ bytes "writer" ∷ bytes "reader" ∷ bytes "reviewer" ∷ [])

pub record Policy : Type 0 where
  pub role : Bytes
  pub actions : List Bytes

-- The policies of New.
abbrev pub policies : List Policy
policies =
    record { role = bytes "admin"; actions = bytes "*" ∷ [] }
    ∷ record { role = bytes "reader"; actions = bytes "job.read" ∷ bytes "rag.query" ∷ [] }
    ∷ record {
      role = bytes "writer";
      actions = bytes "job.read" ∷ bytes "job.create" ∷ bytes "rag.query" ∷ bytes "rag.write" ∷ [];
    }
    ∷ record {
      role = bytes "reviewer";
      actions =
          bytes "job.read"
          ∷ bytes "approval.decide"
          ∷ bytes "benchmark.create"
          ∷ bytes "audit.read"
          ∷ bytes "rag.query"
          ∷ [];
    }
    ∷ []

-- The matcher of the model: r.role == p.role && (p.action == "*" || r.action == p.action).
abbrev grants : Bytes → Bytes → Policy → Bool
grants role action p =
    bytes_eq role p.role && any (λ a. bytes_eq a (bytes "*") || bytes_eq action a) p.actions

unfoldable pub allowed : Principal → Bytes → Bool
unfolding bytes_eq
allowed p action = any (grants p.role action) policies

pub record Claims : Type 0 where
  pub principal : Principal
  pub issued_at : Option Time
  pub expires_at : Time
  pub id : Bytes

pub record Session : Type 0 where
  pub token_id : Bytes
  pub subject : Bytes
  pub tenant : Bytes
  pub project : Bytes
  pub role : Bytes
  pub expires_at : Time
  pub revoked_at : Option Time

pub record AuditEntry : Type 0 where
  pub tenant : Bytes
  pub project : Bytes
  pub actor : Bytes
  pub resource : Bytes
  pub role : Bytes
  pub subject : Bytes

pub record AuthTables : Type 0 where
  pub sessions : List Session
  pub audit : List AuditEntry

-- The library of tokens: ParseWithClaims returns claims for a token that it finds valid at a time,
-- for the key, the method HS256, the issuer and the audience of the service.
pub record Jwt : Type 0 where
  pub sign : Bytes → Claims → Option Bytes
  pub parse : Bytes → Time → Bytes → Option Claims

pub record Auth : Type 0 where
  pub key : Bytes
  pub bootstrap : Bytes
  pub sha : Bytes → Bytes
  pub jwt : Jwt

pub data AuthErr : Type 0 where
  unauthorized identity_unavailable invalid_principal no_randomness unsigned not_stored : AuthErr

abbrev pub hour : ℕ
hour = 3600 * 10 ^ 9

-- strings.CutPrefix(header, "Bearer ")
unfoldable pub drop_bytes : ℕ → Bytes → Bytes
drop_bytes zero s = s
drop_bytes (suc n) [] = []
drop_bytes (suc n) (c ∷ s) = drop_bytes n s

abbrev pub bearer : Bytes
bearer = bytes "Bearer "

unfoldable pub is_live : Bytes → Principal → Time → Session → Bool
unfolding bytes_eq
is_live id p now s =
    bytes_eq s.token_id id
    && bytes_eq s.subject p.subject
    && bytes_eq s.tenant p.tenant
    && bytes_eq s.project p.project
    && bytes_eq s.role p.role
    && (elim (s.revoked_at) [ none ↦ true | some t ↦ false ])
    && ltb now s.expires_at

unfoldable pub count_live : Bytes → Principal → Time → List Session → ℕ
unfolding is_live
count_live id p now [] = 0
count_live id p now (s ∷ sessions) =
    let rest = count_live id p now sessions in if is_live id p now s then rest + 1 else rest

abbrev pub operator : Principal
operator = record {
  subject = bytes "operator";
  role = bytes "admin";
  tenant = bytes "operator";
  project = bytes "default";
  tables = bytes "*" ∷ [];
}

abbrev pub is_blank : Bytes → Bool
is_blank [] = true
is_blank (c ∷ s) = false

abbrev pub too_long : Option Time → Time → Bool
too_long none expires = true
too_long (some issued) expires = ltb hour (expires - issued)

-- The claims of a token that was parsed.
unfoldable pub bad_claims : Claims → Bool
unfolding valid
bad_claims c = too_long c.issued_at c.expires_at || is_blank c.id || not (valid c.principal)

-- The query of the sessions at the database's time, which may fail.
unfoldable pub check_session : Bool → Time → Claims → AuthTables → AuthErr ⊎ Principal
unfolding count_live
check_session down db_now c t =
    if down
    then inl identity_unavailable
    else if count_live c.id c.principal db_now t.sessions == 1
    then inr c.principal
    else inl unauthorized

abbrev check_claims : Bool → Time → Option Claims → AuthTables → AuthErr ⊎ Principal
check_claims down db_now none t = inl unauthorized
check_claims down db_now (some c) t =
    if bad_claims c then inl unauthorized else check_session down db_now c t

unfoldable pub authenticate : Auth → Bool → Time → Time → Bytes → AuthTables → AuthErr ⊎ Principal
unfolding bad_claims check_session has_prefix drop_bytes bytes_eq
authenticate a down now db_now header t =
    let token = drop_bytes 7 header in
    if not (has_prefix header bearer) || ltb 4096 (length token)
    then inl unauthorized
    else if bytes_eq (a.sha a.bootstrap) (a.sha token)
    then inr operator
    else check_claims down db_now (a.jwt.parse a.key now token) t
