-- ===== src/Identity/Tokens.antt =====
-- The tokens of internal/identity/identity.go: what an accepted token proves, and that an issued
-- token is accepted.
use sql_sentinel.Prelude.{◌||◌, le→ltb, All}
use sql_sentinel.Prelude.{
  subst, ◌+◌, ◌≤◌, ◌<◌, Bool, true, false, not, Option, none, some, inl, inr, List, [], ◌∷◌, ◌++◌,
  ◌≡◌, refl, ◌≢◌, ap, arith, length, Bool-cases,
}
use sql_sentinel.Prelude.Bytes.{Bytes, bytes_eq, bytes_eq_refl, bytes_eq_sound, has_prefix}
use sql_sentinel.Kafka.Model.{Time}
use sql_sentinel.Identity.{
  Principal, Claims, Session, AuthTables, Auth, authenticate, is_live, count_live, valid, operator,
  drop_bytes, check_session, check_claims, bad_claims, too_long, is_blank, bearer, hour,
}
use sql_sentinel.Identity.Sessions.{
  may_revoke, issue, whole_seconds, revoke, claims_of, session_of, store_session,
}

-- The row of a session in force.
pub record IsInForce (id : Bytes) (p : Principal) (now : Time) (s : Session) : Type 0 where
  pub token_id : s.token_id ≡ id
  pub subject : s.subject ≡ p.subject
  pub tenant : s.tenant ≡ p.tenant
  pub project : s.project ≡ p.project
  pub role : s.role ≡ p.role
  pub unrevoked : s.revoked_at ≡ none
  pub unexpired : now < s.expires_at

-- One row is in force, and those around it are not.
pub record HasOneSession (id : Bytes) (p : Principal) (now : Time) (sessions : List Session)
    : Type 0 where
  pub before : List Session
  pub session : Session
  pub after : List Session
  pub split : sessions ≡ before ++ session ∷ after
  pub in_force : IsInForce id p now session
  pub none_before : All (λ s. IsInForce id p now s → ⊥) before
  pub none_after : All (λ s. IsInForce id p now s → ⊥) after

-- The token was issued at a time that it names, for an hour at most.
abbrev pub IsShort : Claims → Type 0
IsShort c = (issued : Time) × (c.issued_at ≡ some issued) × (c.expires_at ≤ issued + hour)

-- What the token of an accepted request proves: it is the bootstrap secret, or the claims of its
-- principal, which are valid, and the one session of the database that is in force for them.
pub data Proof (a : Auth) (now db_now : Time) (token : Bytes) (t : AuthTables) (p : Principal)
    : Type 0 where
  bootstrap_secret :
      bytes_eq (a.sha a.bootstrap) (a.sha token) ≡ true
      → p ≡ operator
      → Proof a now db_now token t p
  live_session :
      (c : Claims)
      → a.jwt.parse a.key now token ≡ some c
      → c.principal ≡ p
      → valid p ≡ true
      → c.id ≢ []
      → IsShort c
      → HasOneSession c.id p db_now t.sessions
      → Proof a now db_now token t p

live-IsInForce :
    (id : Bytes) (p : Principal) (now : Time) (s : Session)
    → is_live id p now s ≡ true
    → IsInForce id p now s
unfolding is_live
live-IsInForce id p now s h = record {
  token_id = bytes_eq_sound s.token_id id (ground (arith, h));
  subject = bytes_eq_sound s.subject p.subject (ground (arith, h));
  tenant = bytes_eq_sound s.tenant p.tenant (ground (arith, h));
  project = bytes_eq_sound s.project p.project (ground (arith, h));
  role = bytes_eq_sound s.role p.role (ground (arith, h));
  unrevoked = ground (arith, h);
  unexpired = ground (arith, h);
}

IsInForce-live :
    (id : Bytes) (p : Principal) (now : Time) (s : Session)
    → IsInForce id p now s
    → is_live id p now s ≡ true
unfolding is_live
IsInForce-live id p now s x =
    rw (x.token_id, x.subject, x.tenant, x.project, x.role, x.unrevoked)
      (rw
        (
          bytes_eq_refl id,
          bytes_eq_refl p.subject,
          bytes_eq_refl p.tenant,
          bytes_eq_refl p.project,
          bytes_eq_refl p.role,
        )
        (ground (arith, x.unexpired)))

none-IsInForce :
    (id : Bytes) (p : Principal) (now : Time) (s : Session)
    → is_live id p now s ≡ false
    → IsInForce id p now s
    → ⊥
none-IsInForce id p now s h x = ground (arith, h, IsInForce-live id p now s x)

no_session :
    (id : Bytes) (p : Principal) (now : Time) (sessions : List Session)
    → count_live id p now sessions ≡ 0
    → All (λ s. IsInForce id p now s → ⊥) sessions
unfolding count_live
no_session id p now [] h = tt
no_session id p now (s ∷ sessions) h = (
  none-IsInForce id p now s (ground (arith, h)),
  no_session id p now sessions (ground (arith, h)),
)

count-HasOneSession :
    (id : Bytes) (p : Principal) (now : Time) (sessions : List Session)
    → count_live id p now sessions ≡ 1
    → HasOneSession id p now sessions
unfolding count_live
count-HasOneSession id p now [] h = absurd (ground (arith, h))
count-HasOneSession id p now (s ∷ sessions) h = elim (Bool-cases (is_live id p now s)) [
  | inl live ↦ record {
    before = [];
    session = s;
    after = sessions;
    split = refl;
    in_force = live-IsInForce id p now s live;
    none_before = tt;
    none_after = no_session id p now sessions (ground (arith, h, live));
  }
  | inr over ↦
      let rest = count-HasOneSession id p now sessions (ground (arith, h, over)) in
      record {
        before = s ∷ rest.before;
        session = rest.session;
        after = rest.after;
        split = ap (λ ss. s ∷ ss) rest.split;
        in_force = rest.in_force;
        none_before = (none-IsInForce id p now s over, rest.none_before);
        none_after = rest.none_after;
      }
]

session-HasOne :
    (down : Bool) (db_now : Time) (c : Claims) (t : AuthTables) (p : Principal)
    → check_session down db_now c t ≡ inr p
    → (c.principal ≡ p) × HasOneSession c.id c.principal db_now t.sessions
unfolding check_session
session-HasOne down db_now c t p h =
    (ground (arith, h), count-HasOneSession c.id c.principal db_now t.sessions (ground (arith, h)))

short_claims :
    (issued : Option Time) (expires : Time)
    → too_long issued expires ≡ false
    → (i : Time) × (issued ≡ some i) × (expires ≤ i + hour)
short_claims none expires h = absurd (ground (arith, h))
short_claims (some i) expires h = (i, refl, ground (arith, h))

present : (id : Bytes) → is_blank id ≡ false → id ≢ []
present id h e = ground (arith, h, e)

three_tests : (a b c : Bool) → (a || b || not c) ≡ false → (a ≡ false) × ((b ≡ false) × (c ≡ true))
three_tests a b c h = (ground (arith, h), (ground (arith, h), ground (arith, h)))

good_claims :
    (c : Claims) → bad_claims c ≡ false → (valid c.principal ≡ true) × (c.id ≢ []) × IsShort c
unfolding bad_claims
good_claims c h =
    let (short, (named, v)) =
      three_tests (too_long c.issued_at c.expires_at) (is_blank c.id) (valid c.principal) h in
    (v, present c.id named, short_claims c.issued_at c.expires_at short)

claims-Proof :
    (a : Auth) (down : Bool) (now db_now : Time) (token : Bytes) (t : AuthTables) (p : Principal)
    (x : Option Claims)
    → a.jwt.parse a.key now token ≡ x
    → check_claims down db_now x t ≡ inr p
    → Proof a now db_now token t p
claims-Proof a down now db_now token t p none e h = absurd (ground (arith, h))
claims-Proof a down now db_now token t p (some c) e h = elim (Bool-cases (bad_claims c)) [
  | inl wrong ↦ absurd (ground (arith, h, wrong))
  | inr good ↦
      let (q, one) = session-HasOne down db_now c t p (ground (arith, h, good)) in
      let (v, named, short) = good_claims c good in
      live_session c e q (subst (λ x. valid x ≡ true) q v) named short
        (subst (λ x. HasOneSession c.id x db_now t.sessions) q one)
]

-- Whoever Authenticate accepts came with the bootstrap secret, and is the operator, or with a token
-- whose claims name that principal, which is valid, have an identifier, and end an hour at most after
-- the time of issue that they name; and exactly one row of the sessions has that identifier, the
-- principal's subject, tenant, project and role, is not revoked and has not expired.
pub authenticate-Proof :
    (a : Auth) (down : Bool) (now db_now : Time) (header : Bytes) (t : AuthTables) (p : Principal)
    → authenticate a down now db_now header t ≡ inr p
    → Proof a now db_now (drop_bytes 7 header) t p
unfolding authenticate
authenticate-Proof a down now db_now header t p h =
    let token = drop_bytes 7 header in
    elim (Bool-cases (bytes_eq (a.sha a.bootstrap) (a.sha token))) [
      | inl secret ↦ bootstrap_secret secret (ground (arith, h, secret))
      | inr other ↦
          claims-Proof a down now db_now token t p (a.jwt.parse a.key now token) refl
            (ground (arith, h, other))
    ]

count_live-append :
    (id : Bytes) (p : Principal) (now : Time) (sessions : List Session) (s : Session)
    → is_live id p now s ≡ true
    → count_live id p now (sessions ++ s ∷ []) ≡ count_live id p now sessions + 1
unfolding count_live
count_live-append id p now [] s h = ground (arith, h)
count_live-append id p now (x ∷ sessions) s h =
    ground (arith, h, count_live-append id p now sessions s)

issued-live :
    (p : Principal) (id : Bytes) (now db_now : Time)
    → db_now < now + hour
    → is_live id p db_now (session_of p id now) ≡ true
unfolding is_live
issued-live p id now db_now h = ground (
  arith,
  h,
  bytes_eq_refl id,
  bytes_eq_refl p.subject,
  bytes_eq_refl p.tenant,
  bytes_eq_refl p.project,
  bytes_eq_refl p.role,
)

drop_bytes-bearer : (token : Bytes) → drop_bytes 7 (bearer ++ token) ≡ token
unfolding drop_bytes
drop_bytes-bearer token = refl

has_prefix-bearer : (token : Bytes) → has_prefix (bearer ++ token) bearer ≡ true
unfolding has_prefix
has_prefix-bearer token = refl

issued-hour :
    (now : Time) → too_long (some (whole_seconds now)) (whole_seconds (now + hour)) ≡ false
issued-hour now = ground arith

issued-claims :
    (p : Principal) (id : Bytes) (now : Time)
    → valid p ≡ true
    → is_blank id ≡ false
    → bad_claims (claims_of p id now) ≡ false
unfolding bad_claims
issued-claims p id now v n = rw (issued-hour now, n, v) refl

-- A token that Issue returns is accepted as its principal until the session expires, if the library
-- reads back the claims that it signed, no live session has the drawn identifier, and the token is
-- not the bootstrap secret (by SHA-256) and at most 4096 bytes long.
pub authenticate-issue :
    (a : Auth) (issuer p : Principal) (id token : Bytes) (now later db_now : Time) (t : AuthTables)
    → valid p ≡ true
    → is_blank id ≡ false
    → a.jwt.sign a.key (claims_of p id now) ≡ some token
    → a.jwt.parse a.key later token ≡ some (claims_of p id now)
    → length token ≤ 4096
    → bytes_eq (a.sha a.bootstrap) (a.sha token) ≡ false
    → count_live id p db_now t.sessions ≡ 0
    → db_now < now + hour
    → let (issued, u) = issue a false (some id) issuer p now t in
      (issued ≡ record { token = token; id = id; error = none })
      × (authenticate a false later db_now (bearer ++ issued.token) u ≡ inr p)
unfolding issue authenticate check_session store_session
authenticate-issue a issuer p id token now later db_now t v n s r short other fresh soon =
    rw (issue, v, s)
      (
        refl,
        rw
            (
              le→ltb (length token) 4096 short,
              other,
              r,
              issued-claims p id now v n,
              check_session,
              count_live-append id p db_now t.sessions (session_of p id now)
                  (issued-live p id now db_now soon),
              fresh,
            )
            refl,
      )

-- A revoked session does not count.
revoke-count :
    (by p : Principal) (id : Bytes) (now db_now : Time) (sessions : List Session)
    → All (λ (s : Session). bytes_eq s.token_id id ≡ true → may_revoke by s ≡ true) sessions
    → count_live id p db_now (revoke by id now sessions) ≡ 0
unfolding count_live revoke is_live
revoke-count by p id now db_now [] own = refl
revoke-count by p id now db_now (s ∷ sessions) (o, own) =
    ground (arith, o, revoke-count by p id now db_now sessions own)

revoked-claims :
    (down : Bool) (db_now : Time) (c : Claims) (t : AuthTables) (p : Principal)
    → count_live c.id c.principal db_now t.sessions ≡ 0
    → check_claims down db_now (some c) t ≢ inr p
unfolding check_session
revoked-claims down db_now c t p none_live h = absurd (ground (arith, h, none_live))

-- Once the identifier of a token's claims is revoked, by a principal that may revoke every session
-- with this identifier, Authenticate accepts the token as no principal; the token is not the bootstrap
-- secret (by SHA-256).
pub authenticate-revoke :
    (a : Auth) (down : Bool) (by p : Principal) (c : Claims) (now revoked_at db_now : Time)
    (header : Bytes) (t : AuthTables)
    → All (λ (s : Session). bytes_eq s.token_id c.id ≡ true → may_revoke by s ≡ true) t.sessions
    → bytes_eq (a.sha a.bootstrap) (a.sha (drop_bytes 7 header)) ≡ false
    → a.jwt.parse a.key now (drop_bytes 7 header) ≡ some c
    → authenticate a down now db_now header
        (record t { sessions = revoke by c.id revoked_at t.sessions })
      ≢ inr p
unfolding authenticate
authenticate-revoke a down by p c now revoked_at db_now header t own other read h =
    revoked-claims down db_now c (record t { sessions = revoke by c.id revoked_at t.sessions }) p
      (revoke-count by c.principal c.id revoked_at db_now t.sessions own)
      (ground (arith, h, other, read))
