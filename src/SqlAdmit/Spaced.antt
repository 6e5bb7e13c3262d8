-- ===== src/SqlAdmit/Spaced.antt =====
-- Words in the text that Admit of internal/sqladmit/admit.go searches for forbidden phrases.
use sql_sentinel.Prelude.{
  ◌≡◌, refl, arith, Bool, true, false, ◌&&◌, ◌||◌, List, [], ◌∷◌, ◌++◌, Bool-cases, ap, ◌∙◌,
  append_assoc, inl, inr,
}
use sql_sentinel.Prelude.Bytes.{
  Bytes, bytes, bytes_eq, bytes_eq_sound, bytes_eq_refl, mem_bytes, has_prefix, join,
}
use sql_sentinel.SqlAdmit.Decision.{contains, spaced, code_tokens}

has_prefix-append : (q s p : Bytes) → has_prefix (q ++ s) (q ++ p) ≡ has_prefix s p
unfolding has_prefix
has_prefix-append [] s p = refl
has_prefix-append (c ∷ q) s p = ground (arith, has_prefix-append q s p)

contains-has_prefix : (s p : Bytes) → has_prefix s p ≡ true → contains s p ≡ true
unfolding contains
contains-has_prefix [] p h = h
contains-has_prefix (c ∷ s) p h = rw h refl

contains-append : (s t p : Bytes) → contains t p ≡ true → contains (s ++ t) p ≡ true
unfolding contains
contains-append [] t p h = h
contains-append (c ∷ s) t p h = ground (arith, contains-append s t p h)

-- A word with a blank on each side.
abbrev pub blanked : Bytes → Bytes
blanked w = b' ' ∷ (w ++ b' ' ∷ [])

spaced-cons :
    (t u : Bytes) (ts : List Bytes) → spaced (t ∷ (u ∷ ts)) ≡ (b' ' ∷ t) ++ spaced (u ∷ ts)
unfolding join
spaced-cons t u ts = ap (λ s. b' ' ∷ s) (append_assoc t _ (b' ' ∷ []))

has_prefix-spaced : (w : Bytes) (ts : List Bytes) → has_prefix (spaced (w ∷ ts)) (blanked w) ≡ true
unfolding has_prefix join
has_prefix-spaced w [] = has_prefix-append (b' ' ∷ w) (b' ' ∷ []) (b' ' ∷ [])
has_prefix-spaced w (u ∷ ts) =
    ap (λ s. has_prefix s (blanked w)) (spaced-cons w u ts)
    ∙ has_prefix-append (b' ' ∷ w) (spaced (u ∷ ts)) (b' ' ∷ [])

-- A token stands between blanks.
pub contains-spaced :
    (w : Bytes) (ts : List Bytes) → mem_bytes w ts ≡ true → contains (spaced ts) (blanked w) ≡ true
unfolding mem_bytes
contains-spaced w [] h = absurd (ground arith)
contains-spaced w (t ∷ []) h =
    let e = bytes_eq_sound t w (ground arith) in
    rw e (contains-has_prefix _ (blanked w) (has_prefix-spaced w []))
contains-spaced w (t ∷ (u ∷ ts)) h = elim (Bool-cases (bytes_eq t w)) [
  | inl hit ↦
      rw (bytes_eq_sound t w hit) (contains-has_prefix _ (blanked w) (has_prefix-spaced w (u ∷ ts)))
  | inr miss ↦ rw (spaced-cons t u ts) (
      contains-append (b' ' ∷ t) (spaced (u ∷ ts)) (blanked w)
        (contains-spaced w (u ∷ ts) (ground (arith, h, miss))))
]

-- Two tokens, one directly behind the other.
unfoldable pub follows : Bytes → Bytes → List Bytes → Bool
unfolding bytes_eq
follows a b [] = false
follows a b (t ∷ []) = false
follows a b (t ∷ (u ∷ ts)) = (bytes_eq t a && bytes_eq u b) || follows a b (u ∷ ts)

pub contains-follows :
    (a b : Bytes) (ts : List Bytes)
    → follows a b ts ≡ true
    → contains (spaced ts) ((b' ' ∷ a) ++ blanked b) ≡ true
unfolding follows
contains-follows a b [] h = absurd (ground arith)
contains-follows a b (t ∷ []) h = absurd (ground arith)
contains-follows a b (t ∷ (u ∷ ts)) h = elim (Bool-cases (bytes_eq t a && bytes_eq u b)) [
  | inl hit ↦
      let e = bytes_eq_sound t a (ground (arith, hit)) in
      let f = bytes_eq_sound u b (ground (arith, hit)) in
      rw (spaced-cons t u ts, e, f)
        (contains-has_prefix _ _
          (has_prefix-append (b' ' ∷ a) (spaced (b ∷ ts)) (blanked b) ∙ has_prefix-spaced b ts))
  | inr miss ↦ rw (spaced-cons t u ts) (
      contains-append (b' ' ∷ t) (spaced (u ∷ ts)) _
        (contains-follows a b (u ∷ ts) (ground (arith, h, miss))))
]

-- A word that is no literal is a token exactly if it is a code token.
pub mem_bytes-code_tokens :
    (w : Bytes) (ts : List Bytes)
    → has_prefix w (bytes "'") ≡ false
    → mem_bytes w ts ≡ true
    → mem_bytes w (code_tokens ts) ≡ true
unfolding mem_bytes code_tokens
mem_bytes-code_tokens w [] n h = h
mem_bytes-code_tokens w (t ∷ ts) n h = elim (Bool-cases (bytes_eq t w)) [
  | inl hit ↦ rw (bytes_eq_sound t w hit, n) (rw (bytes_eq_refl w) refl)
  | inr miss ↦
      let rest = mem_bytes-code_tokens w ts n (ground (arith, h, miss)) in
      elim (Bool-cases (has_prefix t (bytes "'"))) [
        | inl quoted ↦ rw quoted rest
        | inr plain ↦ rw (plain, miss) rest
      ]
]
