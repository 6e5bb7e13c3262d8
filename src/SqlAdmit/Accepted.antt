-- ===== src/SqlAdmit/Accepted.antt =====
-- What a statement that Admit of internal/sqladmit/admit.go accepts looks like.
use sql_sentinel.Prelude.{
  subst, ◌≡◌, ◌≤◌, refl, arith, true, false, ◌||◌, Option, none, some, List, [], ◌∷◌, ◌++◌, ◌⊎◌,
  inl, inr, ltb, All, Bool-cases, sym,
}
use sql_sentinel.Prelude.Bytes.{Bytes, bytes, mem_bytes, has_prefix}
use sql_sentinel.SqlAdmit.{ScanErr, Scan, scan}
use sql_sentinel.SqlAdmit.Decision.{
  ReasonCode, Phrase, AdmitResult, contains, spaced, code_tokens, first_forbidden, forbidden,
  is_select, inspected, unless, admit_scanned, admit_scan, admit,
}
use sql_sentinel.SqlAdmit.Spaced.{follows, contains-spaced, contains-follows, mem_bytes-code_tokens}

abbrev pub write_words : List Bytes
write_words =
    bytes "INSERT"
    ∷ bytes "UPDATE"
    ∷ bytes "DELETE"
    ∷ bytes "CREATE"
    ∷ bytes "ALTER"
    ∷ bytes "DROP"
    ∷ []

-- One statement that begins with SELECT or WITH, has no word that writes among its tokens, and
-- neither locks its rows nor stores them in a file.
pub record IsReadOnly (st : Scan) : Type 0 where
  pub first : Bytes
  pub others : List Bytes
  pub begins : st.tokens ≡ first ∷ others
  pub selects : is_select first ≡ true
  pub one_statement : st.semis ≤ 1
  pub nothing_behind : st.token_after_semicolon ≡ false
  pub no_write : All (λ w. mem_bytes w st.tokens ≡ false) write_words
  pub no_lock : follows (bytes "FOR") (bytes "UPDATE") (code_tokens st.tokens) ≡ false
  pub no_share : contains (spaced (code_tokens st.tokens)) (bytes " LOCK IN SHARE MODE ") ≡ false
  pub no_outfile : follows (bytes "INTO") (bytes "OUTFILE") (code_tokens st.tokens) ≡ false
  pub no_dumpfile : follows (bytes "INTO") (bytes "DUMPFILE") (code_tokens st.tokens) ≡ false

abbrev Misses : Bytes → List Phrase → Type 0
Misses text ps = All (λ (p : Phrase). contains text p.phrase ≡ false) ps

first_forbidden-Misses :
    (text : Bytes) (ps : List Phrase) → first_forbidden text ps ≡ none → Misses text ps
unfolding first_forbidden
first_forbidden-Misses text [] h = tt
first_forbidden-Misses text (p ∷ ps) h = elim (Bool-cases (contains text p.phrase)) [
  | inl hit ↦ absurd (ground arith)
  | inr miss ↦ (miss, first_forbidden-Misses text ps ((rw miss at h)))
]

absent :
    (w : Bytes) (ts : List Bytes)
    → has_prefix w (bytes "'") ≡ false
    → contains (spaced (code_tokens ts)) (b' ' ∷ (w ++ b' ' ∷ [])) ≡ false
    → mem_bytes w ts ≡ false
absent w ts n h = elim (Bool-cases (mem_bytes w ts)) [
  | inl hit ↦
      ground (arith, h, contains-spaced w (code_tokens ts) (mem_bytes-code_tokens w ts n hit))
  | inr miss ↦ miss
]

apart :
    (a b : Bytes) (ts : List Bytes)
    → contains (spaced ts) ((b' ' ∷ a) ++ (b' ' ∷ (b ++ b' ' ∷ []))) ≡ false
    → follows a b ts ≡ false
apart a b ts h = elim (Bool-cases (follows a b ts)) [
  | inl hit ↦ ground (arith, h, contains-follows a b ts hit)
  | inr miss ↦ miss
]

record Passed (st : Scan) (inspection : Option Bytes) : Type 0 where
  first : Bytes
  others : List Bytes
  begins : st.tokens ≡ first ∷ others
  selects : is_select first ≡ true
  single : (ltb 1 st.semis || st.token_after_semicolon) ≡ false
  misses : Misses (spaced (code_tokens (first ∷ others))) forbidden
  inspected_ok : inspection ≡ none

inspected-none : (o : Option Bytes) (ts : List Bytes) → (inspected o ts).accepted ≡ true → o ≡ none
inspected-none none ts h = refl
inspected-none (some e) ts h = absurd (ground arith)

unless-none :
    (o : Option ReasonCode) (r : AdmitResult)
    → (unless o r).accepted ≡ true
    → (o ≡ none) × (r.accepted ≡ true)
unless-none none r h = (refl, h)
unless-none (some c) r h = absurd (ground arith)

admit_scanned-Passed :
    (st : Scan) (inspection : Option Bytes) (ts : List Bytes)
    → st.tokens ≡ ts
    → (admit_scanned st inspection).accepted ≡ true
    → Passed st inspection
unfolding admit_scanned
admit_scanned-Passed st inspection [] e h = absurd (ground (arith, (rw e at h)))
admit_scanned-Passed st inspection (first ∷ others) e h =
    let h' = (rw e at h) in
    elim (Bool-cases (ltb 1 st.semis || st.token_after_semicolon)) [
      | inl many ↦ absurd (ground (arith, (rw many at h')))
      | inr single ↦ elim (Bool-cases (is_select first)) [
        | inr other ↦ absurd (ground (arith, (rw (single, other) at h')))
        | inl selects ↦
            let u =
              unless-none (first_forbidden (spaced (code_tokens (first ∷ others))) forbidden)
                (inspected inspection (first ∷ others)) ((rw (single, selects) at h')) in
            record {
              first = first;
              others = others;
              begins = e;
              selects = selects;
              single = single;
              misses = first_forbidden-Misses (spaced (code_tokens (first ∷ others))) forbidden u.0;
              inspected_ok = inspected-none inspection (first ∷ others) u.1;
            }
      ]
    ]

-- The phrases that one text misses, one by one.
Passed-IsReadOnly : (st : Scan) (inspection : Option Bytes) → Passed st inspection → IsReadOnly st
unfolding has_prefix
Passed-IsReadOnly st inspection p =
    let m = subst (λ ts. Misses (spaced (code_tokens ts)) forbidden) (sym p.begins) p.misses in
    let (
      for_update,
      (share, (insert, (update, (delete, (create, (alter, (drop, (outfile, (dumpfile, _))))))))),
    ) =
      m in
    let ts = st.tokens in
    record {
      first = p.first;
      others = p.others;
      begins = p.begins;
      selects = p.selects;
      one_statement = ground (arith, p.single);
      nothing_behind = ground (arith, p.single);
      no_write = (
        absent (bytes "INSERT") ts refl insert,
        (
          absent (bytes "UPDATE") ts refl update,
          (
            absent (bytes "DELETE") ts refl delete,
            (
              absent (bytes "CREATE") ts refl create,
              (absent (bytes "ALTER") ts refl alter, (absent (bytes "DROP") ts refl drop, tt)),
            ),
          ),
        ),
      );
      no_lock = apart (bytes "FOR") (bytes "UPDATE") (code_tokens ts) for_update;
      no_share = share;
      no_outfile = apart (bytes "INTO") (bytes "OUTFILE") (code_tokens ts) outfile;
      no_dumpfile = apart (bytes "INTO") (bytes "DUMPFILE") (code_tokens ts) dumpfile;
    }

admit_scan-IsReadOnly :
    (r : ScanErr ⊎ Scan) (inspection : Option Bytes)
    → (admit_scan r inspection).accepted ≡ true
    → (st : Scan) × (r ≡ inr st) × IsReadOnly st × (inspection ≡ none)
admit_scan-IsReadOnly (inl e) inspection h = absurd (ground arith)
admit_scan-IsReadOnly (inr st) inspection h =
    let p = admit_scanned-Passed st inspection st.tokens refl h in
    (st, refl, Passed-IsReadOnly st inspection p, p.inspected_ok)

-- A statement that Admit accepts is read only as far as its words tell: it is scanned to its end,
-- it is one statement that begins with SELECT or WITH, INSERT, UPDATE, DELETE, CREATE, ALTER and
-- DROP are not among its words, FOR UPDATE, LOCK IN SHARE MODE, INTO OUTFILE and INTO DUMPFILE do not
-- stand in its code,
-- and the inspection of its syntax tree has no objection.
pub admit-IsReadOnly :
    (unicode : Bytes → Bytes) (inspect : Bytes → Option Bytes) (sql : Bytes)
    → (admit unicode inspect sql).accepted ≡ true
    → (st : Scan) × (scan unicode sql ≡ inr st) × IsReadOnly st × (inspect sql ≡ none)
unfolding admit
admit-IsReadOnly unicode inspect sql h = admit_scan-IsReadOnly (scan unicode sql) (inspect sql) h
