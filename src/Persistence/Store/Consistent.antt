-- ===== src/Persistence/Store/Consistent.antt =====
-- What every transaction of the store keeps of the change feed.
use movie.Common.{ℕ, ◌≤◌, ◌≡◌, sym, ap, ◌∙◌, subst, List, [], ◌++◌, All, append-nil, arith}
use movie.Persistence.Model.{DurableStateChange}
use movie.Persistence.Store.Tables.{Database, ProjectionRow}
use movie.Persistence.Store.Projection.{beyond, last_offset}
use movie.Persistence.Store.Offsets.{Above, beyond-beyond, beyond-last_offset}

-- The table holds what the log holds beyond the compaction, the offsets increase up to the sequence,
-- which is the high watermark, and no projection stands before the compaction.
pub record IsConsistent {F : Type 0} (db : Database F) (log : List DurableStateChange)
    : Type 0 where
  pub log_Above : Above 0 log
  pub log_last : last_offset 0 log ≡ db.sequence
  pub kept : db.changes ≡ beyond db.compacted_through log
  pub watermark : db.high_watermark ≡ db.sequence
  pub compaction_bound : db.compacted_through ≤ db.sequence
  pub projections_bound :
      All (λ (r : ProjectionRow). db.compacted_through ≤ r.projection_offset) db.projections

module _ {F : Type 0} where
  -- The log after a transaction.
  abbrev pub logged : Database F → List DurableStateChange → Database F → List DurableStateChange
  logged db log db' = log ++ beyond db.sequence db'.changes

  pub none_new :
      (db : Database F) (log : List DurableStateChange)
      → IsConsistent db log
      → beyond db.sequence db.changes ≡ []
  none_new db log c =
      ap (beyond db.sequence) c.kept
      ∙ beyond-beyond db.compacted_through db.sequence log c.compaction_bound
      ∙ beyond-last_offset db.sequence 0 log c.log_Above (omega (arith, c.log_last))

  -- A transaction on the projections alone.
  pub projections-IsConsistent :
      (db : Database F) (log : List DurableStateChange) (rows : List ProjectionRow)
      → IsConsistent db log
      → All (λ (r : ProjectionRow). db.compacted_through ≤ r.projection_offset) rows
      → IsConsistent
          (record db { projections = rows })
          (logged db log (record db { projections = rows }))
  projections-IsConsistent db log rows c bound =
      subst (IsConsistent (record db { projections = rows }))
        (sym (ap (λ new. log ++ new) (none_new db log c) ∙ append-nil log))
        (record {
          log_Above = c.log_Above;
          log_last = c.log_last;
          kept = c.kept;
          watermark = c.watermark;
          compaction_bound = c.compaction_bound;
          projections_bound = bound;
        })

  pub compacted-IsConsistent :
      (db : Database F) (log : List DurableStateChange) (n : ℕ)
      → IsConsistent db log
      → db.compacted_through ≤ n
      → n ≤ db.sequence
      → All (λ (r : ProjectionRow). n ≤ r.projection_offset) db.projections
      → IsConsistent
          (record db { changes = beyond n db.changes; compacted_through = n })
          (logged db log (record db { changes = beyond n db.changes; compacted_through = n }))
  compacted-IsConsistent db log n c low high bound =
      let left = ap (beyond n) c.kept ∙ beyond-beyond db.compacted_through n log low in
      subst (IsConsistent (record db { changes = beyond n db.changes; compacted_through = n }))
        (sym (
          ap (λ new. log ++ new)
            (ap (beyond db.sequence) left
              ∙ beyond-beyond n db.sequence log high
              ∙ beyond-last_offset db.sequence 0 log c.log_Above (omega (arith, c.log_last)))
          ∙ append-nil log))
        (record {
          log_Above = c.log_Above;
          log_last = c.log_last;
          kept = left;
          watermark = c.watermark;
          compaction_bound = high;
          projections_bound = bound;
        })
