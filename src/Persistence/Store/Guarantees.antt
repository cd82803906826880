-- ===== src/Persistence/Store/Guarantees.antt =====
-- What the store guarantees to its readers and writers after any transactions.
use movie.Common.{
  ℕ, zero, suc, ◌+◌, ◌≤◌, ◌≡◌, ◌≢◌, refl, sym, ap, ◌∙◌, subst, ◌⊎◌, inl, inr, Bool, true, false,
  List, [], ◌∷◌, some, Eq, min, take, arith,
}
use movie.Remoting.Text.Utf8.{Text}
use movie.Persistence.Errors.{PersistenceError, returned, raised, Attempt-cases}
use movie.Persistence.Model.{PersistenceId, Content, DurableStateChange, DurableStateChangeBatch}
use movie.Persistence.Store.Tables.{Database, ProjectionRow}
use movie.Persistence.Store.Projection.{find_projection, last_offset, beyond}
use movie.Persistence.Store.Feed.{
  Query, window, fetch, read_changes, changes, changes-read_changes, state_bytes,
}
use movie.Persistence.Store.Offsets.{Above, window-beyond, beyond-Above}
use movie.Persistence.Store.Exact.{read_changes-IsExact}
use movie.Persistence.Store.Baseline.{AllFrom}
use movie.Persistence.Store.Log.{
  ◌⟶◌, mutated, registered, saved, committed, compacted, retired, Reachable, empty, step,
}
use movie.Persistence.Store.Consistent.{IsConsistent, logged}
use movie.Persistence.Store.Compaction.{compact-IsConsistent}
use movie.Persistence.Store.Preserve.{
  mutate-IsConsistent, register-IsConsistent, save_offset-IsConsistent, commit_offset-IsConsistent,
  retire-IsConsistent,
}

AllFrom-find_projection :
    (n : ℕ) (name key : Text) (rows : List ProjectionRow) (r : ProjectionRow)
    → AllFrom n rows
    → find_projection name key rows ≡ some r
    → n ≤ r.projection_offset
unfolding find_projection
AllFrom-find_projection n name key [] r h e = absurd (cc e)
AllFrom-find_projection n name key (s ∷ rows) r (a, h) e =
    ground (arith, a, e, AllFrom-find_projection n name key rows r h)

fetch-raised :
    (m b left retained : ℕ) (any : Bool) (cursor : List DurableStateChange) (e : PersistenceError)
    → fetch m b left retained any cursor ≡ raised e
    → e ≡ PersistenceError.capacity_exceeded
unfolding fetch
fetch-raised m b zero retained any cursor e h = absurd (cc h)
fetch-raised m b (suc left) retained any [] e h = absurd (cc h)
fetch-raised m b (suc left) retained any (c ∷ cursor) e h = ground (
  arith,
  h,
  Attempt-cases (fetch m b left (retained + state_bytes c.content) true cursor),
  fetch-raised m b left (retained + state_bytes c.content) true cursor e,
)

module _ {F : Type 0} ⦃same : Eq F⦄ (fingerprint : Content → F) (slice : PersistenceId → ℕ) where
  step-IsConsistent :
      (db db' : Database F) (log : List DurableStateChange)
      → IsConsistent db log
      → ◌⟶◌ fingerprint slice db db'
      → IsConsistent db' (logged db log db')
  step-IsConsistent db _ log c (mutated expired m) =
      mutate-IsConsistent fingerprint slice expired m db log c
  step-IsConsistent db _ log c (registered initial row) = register-IsConsistent db log initial row c
  step-IsConsistent db _ log c (saved name key expected new l) =
      save_offset-IsConsistent db log name key expected new c l
  step-IsConsistent db _ log c (committed name key expected new applies l) =
      commit_offset-IsConsistent db log name key expected new applies c l
  step-IsConsistent db _ log c (compacted limit) = compact-IsConsistent db log limit c
  step-IsConsistent db _ log c (retired name key) = retire-IsConsistent db log name key c

  -- After any transactions, in any order: the table of changes holds what was ever committed beyond the
  -- compaction, the offsets of what was committed increase up to the sequence, which is the high
  -- watermark, and no projection stands before the compaction. A projection moves its offset forward only.
  pub Reachable-IsConsistent :
      (db : Database F) (log : List DurableStateChange)
      → Reachable fingerprint slice db log
      → IsConsistent db log
  unfolding last_offset beyond
  Reachable-IsConsistent _ _ empty = record {
    log_Above = tt;
    log_last = refl;
    kept = refl;
    watermark = refl;
    compaction_bound = omega arith;
    projections_bound = tt;
  }
  Reachable-IsConsistent _ _ (step {db} {db'} {log} before s) =
      step-IsConsistent db db' log (Reachable-IsConsistent db log before) s

  -- After any transactions, a page that is returned holds every change ever committed that the query
  -- matches and whose offset is above the query's and at most the page's, whether compaction has
  -- deleted it or not, in the order of the commits, and no other; its offset is at least the query's.
  -- The limit is not 0, and a projection moves its offset forward only.
  pub Reachable-reads :
      (expired : Bool) (m : ℕ) (q : Query) (db : Database F) (log : List DurableStateChange)
      (b : DurableStateChangeBatch)
      → Reachable fingerprint slice db log
      → q.limit ≢ 0
      → changes expired m q db ≡ returned b
      → (b.changes ≡ window q q.after_offset b.offset log) × (q.after_offset ≤ b.offset)
  unfolding read_changes
  Reachable-reads expired m q db log b reachable positive h =
      let read = changes-read_changes expired m q db b h in
      let c = Reachable-IsConsistent db log reachable in
      let sorted =
        subst (Above db.compacted_through) (sym c.kept) (
          beyond-Above db.compacted_through 0 db.compacted_through log c.log_Above (omega arith)) in
      let (page, forward) = read_changes-IsExact m q db b sorted positive read in
      (
        page
            ∙ ap (window q q.after_offset b.offset) c.kept
            ∙ window-beyond q db.compacted_through q.after_offset b.offset log
                (ground (arith, read)),
        forward,
      )

  -- After any transactions, a projection that is registered can go on from the offset it has saved:
  -- whatever compaction has deleted, no page from there on raises `ChangeFeedCompacted`. What a query
  -- raises is that a state is too large for a page or, where its deadline has passed, that it timed
  -- out; errors of SQLite itself are left out. A projection moves its offset forward only.
  pub Reachable-resumes :
      (expired : Bool) (m : ℕ) (q : Query) (db : Database F) (log : List DurableStateChange)
      → (name key : Text) → (r : ProjectionRow) (e : PersistenceError)
      → Reachable fingerprint slice db log
      → find_projection name key db.projections ≡ some r
      → r.projection_offset ≤ q.after_offset
      → changes expired m q db ≡ raised e
      → (e ≡ PersistenceError.capacity_exceeded)
        ⊎ ((expired ≡ true) × (e ≡ PersistenceError.operation_timeout))
  unfolding changes read_changes
  Reachable-resumes true m q db log name key r e reachable found after h = inr (refl, cc h)
  Reachable-resumes false m q db log name key r e reachable found after h =
      let c = Reachable-IsConsistent db log reachable in
      let kept =
        AllFrom-find_projection db.compacted_through name key db.projections r c.projections_bound
          found in
      let cursor = take q.limit (
        window q q.after_offset (min db.high_watermark (q.after_offset + q.scan_limit))
          db.changes) in
      elim (Attempt-cases (fetch m q.max_bytes q.limit 0 false cursor)) [
        | inl (e', failed) ↦ inl (
            ground (
              arith,
              h,
              failed,
              kept,
              after,
              fetch-raised m q.max_bytes q.limit 0 false cursor e' failed,
            ))
        | inr (page, read) ↦ absurd (ground (arith, h, read, kept, after))
      ]
