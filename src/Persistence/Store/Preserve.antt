-- ===== src/Persistence/Store/Preserve.antt =====
-- The transactions of movie/persistence/sqlite.py one by one, except the compaction: each keeps the feed consistent.
use movie.Common.{
  ℕ, suc, ◌≤◌, ◌≡◌, refl, sym, ap, ◌∙◌, subst, ◌⊎◌, inl, inr, Bool, true, false, ◌&&◌, List, [],
  ◌∷◌, ◌++◌, Option, none, some, Eq, eqb, leb, ltb, append-nil, arith, Bool-cases, Option-cases,
}
use movie.Remoting.Text.Utf8.{Text}
use movie.Persistence.Model.{PersistenceId, Content, DurableStateChange}
use movie.Persistence.Store.Tables.{
  Database, ProjectionRow, find_operation, actual_revision, max_offset,
}
use movie.Persistence.Store.Mutate.{Mutation, change_row, mutate, commit}
use movie.Persistence.Store.Projection.{
  find_projection, update_offset, register_new, projection_register, projection_save_offset,
  projection_commit, retire_projection,
}
use movie.Persistence.Store.Offsets.{
  Above-append, last_offset-append, beyond-append, max_offset-beyond, max_offset-append,
}
use movie.Persistence.Store.Baseline.{AllFrom-append, AllFrom-without, AllFrom-update_offset}
use movie.Persistence.Store.Consistent.{IsConsistent, logged, none_new, projections-IsConsistent}

module _ {F : Type 0} where
  -- A transaction that leaves the tables as they are.
  pub same-IsConsistent :
      (db db' : Database F) (log : List DurableStateChange)
      → IsConsistent db log
      → db' ≡ db
      → IsConsistent db' (logged db log db')
  same-IsConsistent db db' log c e =
      subst (λ d. IsConsistent d (logged db log d)) (sym e)
        (subst (IsConsistent db) (sym (ap (λ new. log ++ new) (none_new db log c) ∙ append-nil log))
          c)

  abbrev IsRegistered : Database F → Database F → Type 0
  IsRegistered db db' =
      (r : ProjectionRow) × (db' ≡ record db { projections = db.projections ++ (r ∷ []) })
      × (db.compacted_through ≤ r.projection_offset)

  register_new-tables :
      (db : Database F) (initial : Option ℕ) (row : ProjectionRow)
      → ((register_new initial row db).1 ≡ db) ⊎ IsRegistered db (register_new initial row db).1
  register_new-tables db none row = elim (Bool-cases (ltb 0 db.compacted_through)) [
    | inl late ↦ inl (ground (arith, late))
    | inr early ↦
        inr (record row { projection_offset = 0 }, ground (arith, early), ground (arith, early))
  ]
  register_new-tables db (some n) row =
      elim (Bool-cases (leb db.compacted_through n && leb n db.high_watermark)) [
        | inr bad ↦ inl (ground (arith, bad))
        | inl good ↦
            inr (record row { projection_offset = n }, ground (arith, good), ground (arith, good))
      ]

  pub register-tables :
      (db : Database F) (initial : Option ℕ) (row : ProjectionRow)
      → ((projection_register initial row db).1 ≡ db)
        ⊎ IsRegistered db (projection_register initial row db).1
  unfolding projection_register
  register-tables db initial row =
      elim (Option-cases (find_projection row.projection_name row.projection_key db.projections)) [
        | inr (stored, found) ↦ inl (ground (arith, found))
        | inl new ↦
            subst (λ d. (d ≡ db) ⊎ IsRegistered db d) (ground (arith, new))
              (register_new-tables db initial row)
      ]

  pub register-IsConsistent :
      (db : Database F) (log : List DurableStateChange) (initial : Option ℕ) (row : ProjectionRow)
      → IsConsistent db log
      → IsConsistent
          (projection_register initial row db).1
          (logged db log (projection_register initial row db).1)
  register-IsConsistent db log initial row c = elim (register-tables db initial row) [
    | inl e ↦ same-IsConsistent db _ log c e
    | inr (r, e, low) ↦
        subst (λ d. IsConsistent d (logged db log d)) (sym e)
          (projections-IsConsistent db log _ c
            (AllFrom-append db.compacted_through db.projections r c.projections_bound low))
  ]

  pub save_offset-IsConsistent :
      (db : Database F) (log : List DurableStateChange) (name key : Text) (expected new : ℕ)
      → IsConsistent db log
      → expected ≤ new
      → IsConsistent
          (projection_save_offset name key expected new db).1
          (logged db log (projection_save_offset name key expected new db).1)
  unfolding projection_save_offset
  save_offset-IsConsistent db log name key expected new c l =
      let rows = (update_offset name key expected new db.projections).0 in
      let saved = projections-IsConsistent db log rows c (
        AllFrom-update_offset db.compacted_through name key expected new db.projections l
          c.projections_bound) in
      elim (Bool-cases (eqb (update_offset name key expected new db.projections).1 1)) [
        | inl one ↦ subst (λ d. IsConsistent d (logged db log d)) (ground (arith, one)) saved
        | inr other ↦ subst (λ d. IsConsistent d (logged db log d)) (ground (arith, other)) saved
      ]

  pub commit_offset-tables :
      (db : Database F) (name key : Text) (expected new : ℕ) (applies : Bool)
      → ((projection_commit name key expected new applies db).1 ≡ db)
        ⊎ ((projection_commit name key expected new applies db).1
            ≡ record db { projections = (update_offset name key expected new db.projections).0 })
  unfolding projection_commit
  commit_offset-tables db name key expected new applies = ground arith

  pub commit_offset-IsConsistent :
      (db : Database F) (log : List DurableStateChange) (name key : Text) (expected new : ℕ)
      (applies : Bool)
      → IsConsistent db log
      → expected ≤ new
      → IsConsistent
          (projection_commit name key expected new applies db).1
          (logged db log (projection_commit name key expected new applies db).1)
  commit_offset-IsConsistent db log name key expected new applies c l =
      elim (commit_offset-tables db name key expected new applies) [
        | inl e ↦ same-IsConsistent db _ log c e
        | inr e ↦
            subst (λ d. IsConsistent d (logged db log d)) (sym e)
              (projections-IsConsistent db log _ c (
                AllFrom-update_offset db.compacted_through name key expected new db.projections l
                  c.projections_bound))
      ]

  pub retire-IsConsistent :
      (db : Database F) (log : List DurableStateChange) (name key : Text)
      → IsConsistent db log
      → IsConsistent
          (retire_projection name key db).1
          (logged db log (retire_projection name key db).1)
  unfolding retire_projection
  retire-IsConsistent db log name key c =
      projections-IsConsistent db log _ c
        (AllFrom-without db.compacted_through name key db.projections c.projections_bound)

module _ {F : Type 0} ⦃same : Eq F⦄ (fingerprint : Content → F) (slice : PersistenceId → ℕ) where
  commit-IsConsistent :
      (m : Mutation) (revision : ℕ) (db : Database F) (log : List DurableStateChange)
      → IsConsistent db log
      → IsConsistent
          (commit fingerprint slice m revision db)
          (logged db log (commit fingerprint slice m revision db))
  unfolding commit
  commit-IsConsistent m revision db log c =
      let row = change_row slice m revision (suc db.sequence) in
      let new =
        beyond-append db.sequence db.changes row (omega arith)
        ∙ ap (λ rows. rows ++ (row ∷ [])) (none_new db log c) in
      subst (IsConsistent (commit fingerprint slice m revision db))
        (sym (ap (λ rows. log ++ rows) new))
        (record {
          log_Above = Above-append 0 log row c.log_Above (omega (arith, c.log_last));
          log_last = last_offset-append 0 log row;
          kept =
              ap (λ rows. rows ++ (row ∷ [])) c.kept
              ∙ sym
                  (beyond-append db.compacted_through log row (omega (arith, c.compaction_bound)));
          watermark =
              max_offset-append db.changes row
              ∙ omega (
                arith,
                ap max_offset c.kept,
                max_offset-beyond db.compacted_through 0 log c.log_Above,
                c.log_last,
              );
          compaction_bound = omega (arith, c.compaction_bound);
          projections_bound = c.projections_bound;
        })

  pub mutate-tables :
      (expired : Bool) (m : Mutation) (db : Database F)
      → ((mutate fingerprint slice expired m db).1 ≡ db)
        ⊎ ((mutate fingerprint slice expired m db).1
            ≡ commit fingerprint slice m (suc (actual_revision m.persistence_id db.states)) db)
  unfolding mutate
  mutate-tables true m db = inl refl
  mutate-tables false m db =
      elim (Option-cases (find_operation m.persistence_id m.operation_id db.operations)) [
        | inr (row, found) ↦ inl (ground (arith, found))
        | inl new ↦
            elim (Bool-cases
              (eqb (actual_revision m.persistence_id db.states) m.expected_revision)) [
                | inl current ↦ inr (ground (arith, new, current))
                | inr stale ↦ inl (ground (arith, new, stale))
              ]
      ]

  pub mutate-IsConsistent :
      (expired : Bool) (m : Mutation) (db : Database F) (log : List DurableStateChange)
      → IsConsistent db log
      → IsConsistent
          (mutate fingerprint slice expired m db).1
          (logged db log (mutate fingerprint slice expired m db).1)
  mutate-IsConsistent expired m db log c = elim (mutate-tables expired m db) [
    | inl e ↦ same-IsConsistent db _ log c e
    | inr e ↦
        subst (λ d. IsConsistent d (logged db log d)) (sym e) (commit-IsConsistent m _ db log c)
  ]
