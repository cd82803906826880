-- ===== src/Persistence/Store/Compaction.antt =====
-- The compaction of the store in movie/persistence/sqlite.py keeps the feed consistent.
use movie.Common.{
  ℕ, ◌≤◌, ◌<◌, ◌≡◌, sym, subst, ◌⊎◌, inl, inr, false, ◌||◌, List, eqb, take, is_empty, length, All,
  arith, Bool-cases, Option-cases,
}
use movie.Persistence.Model.{DurableStateChange}
use movie.Persistence.Store.Tables.{Database}
use movie.Persistence.Store.Projection.{through, beyond, last_offset, min_offset, compact_changes}
use movie.Persistence.Store.Offsets.{
  last_offset-All_some, take-All, through-All, through_bound, beyond_bound, beyond_upper,
}
use movie.Persistence.Store.Baseline.{AllFrom, AllFrom-min_offset, AllFrom-weaken}
use movie.Persistence.Store.Consistent.{IsConsistent, logged, compacted-IsConsistent}
use movie.Persistence.Store.Preserve.{same-IsConsistent}

read_last :
    (cs : List DurableStateChange) (limit minimum : ℕ) (P : ℕ → Type 0)
    → is_empty (take limit (through minimum cs)) ≡ false
    → All (λ (c : DurableStateChange). P c.offset) cs
    → P (last_offset 0 (take limit (through minimum cs)))
read_last cs limit minimum P some_read h =
    last_offset-All_some P 0 (take limit (through minimum cs)) some_read (
      take-All (λ (c : DurableStateChange). P c.offset) limit (through minimum cs)
        (through-All (λ (c : DurableStateChange). P c.offset) minimum cs h))

module _ {F : Type 0} where
  -- The last of the offsets that a compaction reads.
  compaction_bounds :
      (db : Database F) (log : List DurableStateChange) (limit minimum : ℕ)
      → IsConsistent db log
      → is_empty (take limit (through minimum db.changes)) ≡ false
      → (db.compacted_through ≤ last_offset 0 (take limit (through minimum db.changes)))
        × (last_offset 0 (take limit (through minimum db.changes)) ≤ db.sequence)
        × (last_offset 0 (take limit (through minimum db.changes)) ≤ minimum)
  compaction_bounds db log limit minimum c some_read = (
    omega (
      arith,
      read_last db.changes limit minimum (λ n. db.compacted_through < n) some_read
          (subst (All (λ (r : DurableStateChange). db.compacted_through < r.offset)) (sym c.kept)
            (beyond_bound db.compacted_through log)),
    ),
    read_last db.changes limit minimum (λ n. n ≤ db.sequence) some_read
        (subst (All (λ (r : DurableStateChange). r.offset ≤ db.sequence)) (sym c.kept) (
          beyond_upper db.compacted_through 0 db.sequence log c.log_Above
            (omega (arith, c.log_last)))),
    last_offset-All_some (λ n. n ≤ minimum) 0 (take limit (through minimum db.changes)) some_read
        (take-All (λ (r : DurableStateChange). r.offset ≤ minimum) limit
          (through minimum db.changes) (through_bound minimum db.changes)),
  )

  compact-tables :
      (db : Database F) (log : List DurableStateChange) (limit : ℕ)
      → IsConsistent db log
      → ((compact_changes limit db).1 ≡ db)
        ⊎ ((n : ℕ) × ((compact_changes limit db).1
              ≡ record db { changes = beyond n db.changes; compacted_through = n })
            × (db.compacted_through ≤ n)
            × (n ≤ db.sequence)
            × AllFrom n db.projections)
  unfolding compact_changes
  compact-tables db log limit c = elim (Option-cases (min_offset db.projections)) [
    | inl empty ↦ inl (ground (arith, empty))
    | inr (minimum, found) ↦
        let offsets = take limit (through minimum db.changes) in
        elim (Bool-cases (eqb minimum 0 || is_empty offsets)) [
          | inl nothing ↦ inl (ground (arith, found, nothing))
          | inr something ↦
              let (low, high, bound) =
                compaction_bounds db log limit minimum c (ground (arith, something)) in
              elim (Bool-cases (eqb (length (through (last_offset 0 offsets) db.changes)) 0)) [
                | inl nobody ↦ inl (ground (arith, found, something, nobody))
                | inr deleted ↦ inr (
                  last_offset 0 offsets,
                  ground (arith, found, something, deleted),
                  low,
                  high,
                  AllFrom-weaken (last_offset 0 offsets) minimum db.projections bound
                      (AllFrom-min_offset minimum db.projections found),
                )
              ]
        ]
  ]

  pub compact-IsConsistent :
      (db : Database F) (log : List DurableStateChange) (limit : ℕ)
      → IsConsistent db log
      → IsConsistent (compact_changes limit db).1 (logged db log (compact_changes limit db).1)
  compact-IsConsistent db log limit c = elim (compact-tables db log limit c) [
    | inl e ↦ same-IsConsistent db _ log c e
    | inr (n, e, low, high, bound) ↦
        subst (λ d. IsConsistent d (logged db log d)) (sym e)
          (compacted-IsConsistent db log n c low high bound)
  ]
