-- ===== src/Parity/Dedupe.antt =====
-- What the deduplication by id keeps, and what it counts.
use k2_market_data_platform.Base.{
  suc, ◌+◌, ◌≤◌, ◌≡◌, refl, sym, ◌∙◌, String, true, none, some, List, [], ◌∷◌, length, Option-cases,
  inl, inr, All, arith,
}
use k2_market_data_platform.Base.Eq.{string_eq, int_eq}
use k2_market_data_platform.Base.Dict.{Dict, lookup, insert, lookup-insert, IsDict, insert-IsDict}
use k2_market_data_platform.Parity.{
  Norm, Deduped, same_trade, note_record, note_records, no_records, dedupe_by_id,
}

-- every record of a list agrees with what the dict holds of its id
abbrev pub Agrees : Dict String Norm → Norm → Type 0
Agrees d n = (first : Norm) × (lookup n.trade_id d ≡ some first) × (same_trade first n ≡ true)

length-insert :
    (k : String) (v : Norm) (d : Dict String Norm)
    → lookup k d ≡ none
    → length (insert k v d) ≡ suc (length d)
unfolding insert lookup
length-insert k v [] h = refl
length-insert k v ((j, w) ∷ d) h = ground (arith, length-insert k v d, h)

same_trade_refl : (n : Norm) → same_trade n n ≡ true
unfolding same_trade
same_trade_refl n = ground (
  arith,
  int_eq.beq_iff n.price n.price,
  int_eq.beq_iff n.qty n.qty,
  string_eq.beq_iff n.side n.side,
  int_eq.beq_iff n.exchange_ts_us n.exchange_ts_us,
)

-- Each record is kept or counted as a repeat.
note_records-counts :
    (d : Deduped) (rows : List Norm)
    → length (note_records d rows).by_id + (note_records d rows).dup
      ≡ length d.by_id + d.dup + length rows
unfolding note_records
note_records-counts d [] = omega arith
note_records-counts d (n ∷ rows) = omega (arith, note_records-counts (note_record d n) rows, one)
  where
    one : length (note_record d n).by_id + (note_record d n).dup ≡ suc (length d.by_id + d.dup)
    one = elim (Option-cases (lookup n.trade_id d.by_id)) [
      | inl e ↦
          unfold note_record in
          rw (e, note_record) (omega (arith, length-insert n.trade_id n d.by_id e))
      | inr (f, e) ↦ unfold note_record in rw (e, note_record) (omega arith)
    ]

pub dedupe_by_id-counts :
    (rows : List Norm) → length (dedupe_by_id rows).by_id + (dedupe_by_id rows).dup ≡ length rows
unfolding dedupe_by_id
dedupe_by_id-counts rows = omega (arith, note_records-counts no_records rows)

-- the count of inconsistent repeats never falls
note_record_rises : (d : Deduped) (n : Norm) → d.inconsistent ≤ (note_record d n).inconsistent
unfolding note_record
note_record_rises d n = ground arith

note_records_rises :
    (d : Deduped) (rows : List Norm) → d.inconsistent ≤ (note_records d rows).inconsistent
unfolding note_records
note_records_rises d [] = omega arith
note_records_rises d (n ∷ rows) =
    omega (arith, note_record_rises d n, note_records_rises (note_record d n) rows)

-- the first copy of an id stays
note_record_keeps :
    (d : Deduped) (n : Norm) (t : String) (f : Norm)
    → lookup t d.by_id ≡ some f
    → lookup t (note_record d n).by_id ≡ some f
unfolding note_record
note_record_keeps d n t f h =
    ground (arith, h, lookup-insert n.trade_id t n d.by_id, string_eq.beq_iff n.trade_id t)

note_records_keeps :
    (d : Deduped) (rows : List Norm) (t : String) (f : Norm)
    → lookup t d.by_id ≡ some f
    → lookup t (note_records d rows).by_id ≡ some f
unfolding note_records
note_records_keeps d [] t f h = h
note_records_keeps d (n ∷ rows) t f h =
    note_records_keeps (note_record d n) rows t f (note_record_keeps d n t f h)

-- with no inconsistent repeat, a record agrees with the copy that is kept
note_record-Agrees :
    (d : Deduped) (n : Norm)
    → (note_record d n).inconsistent ≡ d.inconsistent
    → Agrees (note_record d n).by_id n
unfolding note_record
note_record-Agrees d n h = elim (Option-cases (lookup n.trade_id d.by_id)) [
  | inl e ↦ (
    n,
    ground (
      arith,
      e,
      lookup-insert n.trade_id n.trade_id n d.by_id,
      string_eq.beq_iff n.trade_id n.trade_id,
    ),
    same_trade_refl n,
  )
  | inr (f, e) ↦ (f, ground (arith, e), ground (arith, e, h))
]

-- with no inconsistent repeat, every record agrees with the copy that is kept
pub note_records-Agrees :
    (d : Deduped) (rows : List Norm)
    → (note_records d rows).inconsistent ≡ d.inconsistent
    → All (Agrees (note_records d rows).by_id) rows
unfolding note_records
note_records-Agrees d [] h = tt
note_records-Agrees d (n ∷ rows) h =
    let one : (note_record d n).inconsistent ≡ d.inconsistent =
      omega (arith, h, note_record_rises d n, note_records_rises (note_record d n) rows) in
    let (f, at, same) = note_record-Agrees d n one in
    (
      (f, note_records_keeps (note_record d n) rows n.trade_id f at, same),
      note_records-Agrees (note_record d n) rows (h ∙ sym one),
    )

pub dedupe_by_id-Agrees :
    (rows : List Norm)
    → (dedupe_by_id rows).inconsistent ≡ 0
    → All (Agrees (dedupe_by_id rows).by_id) rows
unfolding dedupe_by_id
dedupe_by_id-Agrees rows h = note_records-Agrees no_records rows h

note_record-IsDict : (d : Deduped) (n : Norm) → IsDict d.by_id → IsDict (note_record d n).by_id
unfolding note_record
note_record-IsDict d n h = ground (arith, h, insert-IsDict n.trade_id n d.by_id h)

pub note_records-IsDict :
    (d : Deduped) (rows : List Norm) → IsDict d.by_id → IsDict (note_records d rows).by_id
unfolding note_records
note_records-IsDict d [] h = h
note_records-IsDict d (n ∷ rows) h =
    note_records-IsDict (note_record d n) rows (note_record-IsDict d n h)
