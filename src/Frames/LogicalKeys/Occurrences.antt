-- ===== src/Frames/LogicalKeys/Occurrences.antt =====
-- The occurrence index of a row counts the earlier rows of its logical key.
use predictive_analysis.Common.{
  ℕ, ◌+◌, true, false, ◌≡◌, Option, none, some, List, [], ◌∷◌, ◌++◌, arith, refl, String,
  Bool-cases, inl, inr, ◌∙◌, ap, ap₂,
}
use predictive_analysis.Common.Dict.{Dict, get_or, put, append_to, get_or-put, get_or-append_to}
use predictive_analysis.Frames.Models.{
  LogicalPosition, position_eq, same_position, same_position_iff, RawRowRef,
}
use predictive_analysis.Frames.Groups.{GroupKey, group_key_eq, same_key, same_key_iff}
use predictive_analysis.Frames.Groups.Counting.{rows_at}
use predictive_analysis.Frames.LogicalKeys.{
  counter_key_eq, Cell, SourceFrame, Roles, KeyState, Identity, file_row, key_rows, build,
  no_rows_yet, note_identity, identify, event_time_at, identity_is_assigned, row_ref, position_of,
  CounterKey,
}

-- Each row's index is the number of the rows at its position before it in the list.
abbrev pub NumberedAfter : List RawRowRef → List RawRowRef → Type 0
NumberedAfter earlier [] = Unit
NumberedAfter earlier (r ∷ rows) =
    (r.occurrence_index ≡ rows_at r.position earlier) × NumberedAfter (earlier ++ r ∷ []) rows

abbrev pub IsNumbered : List RawRowRef → Type 0
IsNumbered rows = NumberedAfter [] rows

rows_at-append :
    (p : LogicalPosition) (xs ys : List RawRowRef)
    → rows_at p (xs ++ ys) ≡ rows_at p xs + rows_at p ys
rows_at-append p [] ys = omega arith
rows_at-append p (r ∷ xs) ys = ground (arith, rows_at-append p xs ys)

NumberedAfter-append :
    (earlier rows : List RawRowRef) (r : RawRowRef)
    → NumberedAfter earlier rows
    → r.occurrence_index ≡ rows_at r.position earlier + rows_at r.position rows
    → NumberedAfter earlier (rows ++ r ∷ [])
NumberedAfter-append earlier [] r h e = (omega arith, tt)
NumberedAfter-append earlier (s ∷ rows) r h e = (
  h.0,
  NumberedAfter-append (earlier ++ s ∷ []) rows r h.1
      (ground (arith, rows_at-append r.position earlier (s ∷ []))),
)

-- The counter and the rows filed so far agree.
record IsIndexed (s : KeyState) : Type 0 where
  counted :
      (k : GroupKey) (p : LogicalPosition)
      → get_or (k, p) 0 s.occurrence_counter ≡ rows_at p (get_or k [] s.by_timestamp)
  numbered : (k : GroupKey) → IsNumbered (get_or k [] s.by_timestamp)

rows_at-same :
    (r : RawRowRef) (p : LogicalPosition)
    → same_position r.position p ≡ true
    → rows_at p (r ∷ []) ≡ 1
rows_at-same r p q = rw q

rows_at-other :
    (r : RawRowRef) (p : LogicalPosition)
    → same_position r.position p ≡ false
    → rows_at p (r ∷ []) ≡ 0
rows_at-other r p q = rw q

module _ (g : GroupKey) (r : RawRowRef) (counter : Dict CounterKey ℕ)
    (filed : Dict GroupKey (List RawRowRef))
    (counted : (k : GroupKey) (p : LogicalPosition)
      → get_or (k, p) 0 counter ≡ rows_at p (get_or k [] filed)) where
  counted-append_to :
      (k : GroupKey) (p : LogicalPosition)
      → get_or (k, p) 0 (put (g, r.position) (get_or (g, r.position) 0 counter + 1) counter)
        ≡ rows_at p (get_or k [] (append_to g r filed))
  counted-append_to k p =
      rw
        (
          get_or-put (g, r.position) (k, p) (get_or (g, r.position) 0 counter + 1) 0 counter,
          get_or-append_to g k r filed,
        )
        (elim (Bool-cases (same_key g k)) [
          | inl e ↦ rw e (elim (Bool-cases (same_position r.position p)) [
            | inl q ↦ rw q (
                omega (
                  arith,
                  counted g r.position
                      ∙ ap₂ (λ j o. rows_at o (get_or j [] filed)) ((same_key_iff g k).0 e)
                          ((same_position_iff r.position p).0 q),
                  rows_at-append p (get_or k [] filed) (r ∷ []),
                  rows_at-same r p q,
                ))
            | inr q ↦ rw q (
                omega (
                  arith,
                  counted k p,
                  rows_at-append p (get_or k [] filed) (r ∷ []),
                  rows_at-other r p q,
                ))
          ])
          | inr e ↦ rw e (counted k p)
        ])

  IsNumbered-append_to :
      ((k : GroupKey) → IsNumbered (get_or k [] filed))
      → r.occurrence_index ≡ get_or (g, r.position) 0 counter
      → (k : GroupKey) → IsNumbered (get_or k [] (append_to g r filed))
  IsNumbered-append_to h n k = rw (get_or-append_to g k r filed) (elim (Bool-cases (same_key g k)) [
    | inl e ↦ rw e (
        NumberedAfter-append [] (get_or k [] filed) r (h k) (
          omega (
            arith,
            n
                ∙ (counted g r.position
                    ∙ ap (λ j. rows_at r.position (get_or j [] filed)) ((same_key_iff g k).0 e)),
          )))
    | inr e ↦ rw e (h k)
  ])

IsIndexed-file_row :
    (file_id : String) (index : ℕ) (i : Identity) (t : Option ℕ) (s : KeyState)
    → IsIndexed s
    → IsIndexed (file_row file_id index i t s)
unfolding file_row
IsIndexed-file_row file_id index i none s h = record { counted = h.counted; numbered = h.numbered }
IsIndexed-file_row file_id index i (some t) s h = elim (Bool-cases (identity_is_assigned i)) [
  | inl e ↦ rw e (
      let n = get_or ((i.charger_id, t), position_of i) 0 s.occurrence_counter in
      let r = row_ref file_id index i n false in
      record {
        counted =
            counted-append_to (i.charger_id, t) r s.occurrence_counter s.by_timestamp h.counted;
        numbered =
            IsNumbered-append_to (i.charger_id, t) r s.occurrence_counter s.by_timestamp h.counted
              h.numbered refl;
      })
  | inr e ↦ rw e (record { counted = h.counted; numbered = h.numbered })
]

module _ (row_fingerprint : List String → List Cell → String) (roles : Roles)
    (charger_fallback : Option String) where
  IsIndexed-key_rows :
      (file_id : String) (columns : List String) (times : List (Option ℕ)) (index : ℕ)
      (rows : List (List Cell)) (s : KeyState)
      → IsIndexed s
      → IsIndexed
          (key_rows row_fingerprint roles charger_fallback file_id columns times index rows s)
  unfolding key_rows
  IsIndexed-key_rows file_id columns times index [] s h = h
  IsIndexed-key_rows file_id columns times index (cells ∷ rows) s h =
      let i = identify row_fingerprint roles charger_fallback columns cells in
      let t = event_time_at times index in
      IsIndexed-key_rows file_id columns times (index + 1) rows
        (file_row file_id index i t (note_identity i s))
        (IsIndexed-file_row file_id index i t (note_identity i s)
          (record { counted = h.counted; numbered = h.numbered }))

  -- In each timestamp group every row is numbered by the rows of its position that come before it.
  pub build-numbers_occurrences :
      (frame : SourceFrame) (file_id : String) (times : List (Option ℕ)) (key : GroupKey)
      → IsNumbered (
          get_or key []
            (build row_fingerprint roles charger_fallback frame file_id times).by_timestamp)
  unfolding build
  build-numbers_occurrences frame file_id times key =
      (IsIndexed-key_rows file_id frame.columns times 0 frame.rows no_rows_yet
          (record { counted = λ k p. refl; numbered = λ k. tt })).numbered
        key
