-- ===== src/Snapshot/Fields.antt =====
-- The bytes that normalize of internal/snapshot/digest.go writes determine the rows.
use mathlib.Core.List.{append_assoc}
use sql_sentinel.Prelude.{
  inr, subst, inl, ℕ, suc, ◌/◌, ◌%◌, ◌<◌, ◌≡◌, ◌≢◌, refl, sym, ap, arith, Option, ◌⊎◌, inl, inr,
  subst, List, [], ◌∷◌, ◌++◌, All, All-append,
}
use sql_sentinel.Prelude.Int.{ℤ, pos, negsuc}
use sql_sentinel.Prelude.Bytes.{Bytes}
use sql_sentinel.Prelude.Decimal.{
  decimal, padded, IsDigit, decimal-IsDigit, padded-IsDigit, decimal_injective, padded_injective,
  split_at,
}
use sql_sentinel.Snapshot.{
  Moment, Row, field_sep, row_sep, stamp, signed_decimal, note_bytes, normalize,
}

-- No byte is the separator.
abbrev pub Lacks : ℕ → Bytes → Type 0
Lacks sep s = All (λ c. c ≢ sep) s

digits-Lacks : (sep : ℕ) (s : Bytes) → (sep < b'0') ⊎ (b'9' < sep) → All IsDigit s → Lacks sep s
digits-Lacks sep [] h d = tt
digits-Lacks sep (c ∷ s) h d = (λ e. ground (arith, h, d, e), digits-Lacks sep s h d.1)

padded-Lacks : (sep width n : ℕ) → (sep < b'0') ⊎ (b'9' < sep) → Lacks sep (padded width n)
padded-Lacks sep width n h = digits-Lacks sep (padded width n) h (padded-IsDigit width n)

decimal-Lacks : (sep n : ℕ) → (sep < b'0') ⊎ (b'9' < sep) → Lacks sep (decimal n)
decimal-Lacks sep n h = digits-Lacks sep (decimal n) h (decimal-IsDigit n)

Lacks-then :
    (sep c : ℕ) (a b : Bytes) → Lacks sep a → c ≢ sep → Lacks sep b → Lacks sep (a ++ c ∷ b)
Lacks-then sep c a b ha hc hb = All-append (λ c. c ≢ sep) a (c ∷ b) ha (hc, hb)

stamp-Lacks : (t : Moment) → Lacks field_sep (stamp t)
unfolding stamp
stamp-Lacks t =
    let digits = λ (w n : ℕ). padded-Lacks field_sep w n (inl (omega arith)) in
    let then_byte = Lacks-then field_sep in
    then_byte b'-' _ _ (digits 4 t.year) (omega arith) (
      then_byte b'-' _ _ (digits 2 t.month) (omega arith) (
        then_byte b'T' _ _ (digits 2 t.day) (omega arith) (
          then_byte b':' _ _ (digits 2 t.hour) (omega arith) (
            then_byte b':' _ _ (digits 2 t.minute) (omega arith) (
              then_byte b'.' _ _ (digits 2 t.second) (omega arith)
                (then_byte b'Z' _ [] (digits 6 (t.nanosecond / 1000)) (omega arith) tt))))))

-- The times agree to the microsecond.
stamp_injective :
    (t u : Moment) → t.nanosecond % 1000 ≡ 0 → u.nanosecond % 1000 ≡ 0 → stamp t ≡ stamp u → t ≡ u
unfolding stamp
stamp_injective t u mt mu h =
    let dash = λ (w n : ℕ). padded-Lacks b'-' w n (inl (omega arith)) in
    let colon = λ (w n : ℕ). padded-Lacks b':' w n (inr (omega arith)) in
    let tee = λ (n : ℕ). padded-Lacks b'T' 2 n (inr (omega arith)) in
    let dot = λ (n : ℕ). padded-Lacks b'.' 2 n (inl (omega arith)) in
    let zed = λ (n : ℕ). padded-Lacks b'Z' 6 n (inr (omega arith)) in
    let (year, h1) = split_at b'-' _ _ _ _ (dash 4 t.year) (dash 4 u.year) h in
    let (month, h2) = split_at b'-' _ _ _ _ (dash 2 t.month) (dash 2 u.month) h1 in
    let (day, h3) = split_at b'T' _ _ _ _ (tee t.day) (tee u.day) h2 in
    let (hour, h4) = split_at b':' _ _ _ _ (colon 2 t.hour) (colon 2 u.hour) h3 in
    let (minute, h5) = split_at b':' _ _ _ _ (colon 2 t.minute) (colon 2 u.minute) h4 in
    let (second, h6) = split_at b'.' _ _ _ _ (dot t.second) (dot u.second) h5 in
    let (micro, h7) =
      split_at b'Z' _ _ _ _ (zed (t.nanosecond / 1000)) (zed (u.nanosecond / 1000)) h6 in
    ground (
      arith,
      padded_injective 4 t.year u.year year,
      padded_injective 2 t.month u.month month,
      padded_injective 2 t.day u.day day,
      padded_injective 2 t.hour u.hour hour,
      padded_injective 2 t.minute u.minute minute,
      padded_injective 2 t.second u.second second,
      padded_injective 6 (t.nanosecond / 1000) (u.nanosecond / 1000) micro,
    )

signed_decimal-Lacks : (a : ℤ) → Lacks field_sep (signed_decimal a)
unfolding signed_decimal
signed_decimal-Lacks (pos n) = decimal-Lacks field_sep n (inl (omega arith))
signed_decimal-Lacks (negsuc n) =
    (λ e. ground (arith, e), decimal-Lacks field_sep (suc n) (inl (omega arith)))

no_dash : (n : ℕ) (s : Bytes) → decimal n ≢ b'-' ∷ s
no_dash n s h = (subst (λ t. Lacks b'-' t) h (decimal-Lacks b'-' n (inl (omega arith)))).0 refl

signed_decimal_injective : (a b : ℤ) → signed_decimal a ≡ signed_decimal b → a ≡ b
unfolding signed_decimal
signed_decimal_injective (pos m) (pos n) h = ap pos (decimal_injective m n h)
signed_decimal_injective (pos m) (negsuc n) h = absurd (no_dash m _ h)
signed_decimal_injective (negsuc m) (pos n) h = absurd (no_dash n _ (sym h))
signed_decimal_injective (negsuc m) (negsuc n) h =
    ground (arith, decimal_injective (suc m) (suc n) (ground (arith, h)))

note_bytes_injective : (a b : Option Bytes) → note_bytes a ≡ note_bytes b → a ≡ b
note_bytes_injective a b h = ground (arith, h)

-- No separator stands where it would end a field early, and the time has no more than microseconds.
pub record IsPlain (r : Row) : Type 0 where
  pub plain_status : Lacks field_sep r.status
  pub plain_note : Lacks field_sep (note_bytes r.note)
  pub plain_payload : Lacks row_sep r.payload
  pub whole_micros : r.created_at.nanosecond % 1000 ≡ 0

-- A plain row is determined by its bytes, and so is what follows them.
pub normalize_injective :
    (r u : Row) (rest more : Bytes)
    → IsPlain r
    → IsPlain u
    → normalize r rest ≡ normalize u more
    → (r ≡ u) × (rest ≡ more)
unfolding normalize
normalize_injective r u rest more p q h =
    let digits = λ (n : ℕ). decimal-Lacks field_sep n (inl (omega arith)) in
    let (id, h1) = split_at field_sep _ _ _ _ (digits r.id) (digits u.id) h in
    let (user, h2) = split_at field_sep _ _ _ _ (digits r.user_id) (digits u.user_id) h1 in
    let (status, h3) = split_at field_sep _ _ _ _ p.plain_status q.plain_status h2 in
    let (time, h4) =
      split_at field_sep _ _ _ _ (stamp-Lacks r.created_at) (stamp-Lacks u.created_at) h3 in
    let (amount, h5) =
      split_at field_sep _ _ _ _ (signed_decimal-Lacks r.amount_cents)
        (signed_decimal-Lacks u.amount_cents) h4 in
    let (note, h6) = split_at field_sep _ _ _ _ p.plain_note q.plain_note h5 in
    let (payload, left) = split_at row_sep _ _ _ _ p.plain_payload q.plain_payload h6 in
    (
      ground (
        arith,
        status,
        payload,
        decimal_injective r.id u.id id,
        decimal_injective r.user_id u.user_id user,
        stamp_injective r.created_at u.created_at p.whole_micros q.whole_micros time,
        signed_decimal_injective r.amount_cents u.amount_cents amount,
        note_bytes_injective r.note u.note note,
      ),
      left,
    )

abbrev pub normalize_all : List Row → Bytes
normalize_all [] = []
normalize_all (r ∷ rows) = normalize r (normalize_all rows)

append-ne-nil : (a : Bytes) (c : ℕ) (b : Bytes) → a ++ c ∷ b ≢ []
append-ne-nil [] c b h = ground (arith, h)
append-ne-nil (d ∷ a) c b h = ground (arith, h)

normalize-ne-nil : (r : Row) (rest : Bytes) → normalize r rest ≢ []
unfolding normalize
normalize-ne-nil r rest = append-ne-nil (decimal r.id) _ _

pub normalize_all_injective :
    (rows others : List Row)
    → All IsPlain rows
    → All IsPlain others
    → normalize_all rows ≡ normalize_all others
    → rows ≡ others
normalize_all_injective [] [] p q h = refl
normalize_all_injective [] (u ∷ others) p q h = absurd (normalize-ne-nil u _ (sym h))
normalize_all_injective (r ∷ rows) [] p q h = absurd (normalize-ne-nil r _ h)
normalize_all_injective (r ∷ rows) (u ∷ others) (p, ps) (q, qs) h =
    let (same, left) = normalize_injective r u _ _ p q h in
    ground (arith, same, normalize_all_injective rows others ps qs left)

pub normalize-append : (r : Row) (rest : Bytes) → normalize r [] ++ rest ≡ normalize r rest
unfolding normalize
normalize-append r rest = simp append_assoc
