-- ===== src/Persistence/Store/Rollback.antt =====
-- `_mutate` of movie/persistence/sqlite.py on a connection whose statements may raise.
use movie.Common.{
  ℕ, suc, ◌≡◌, refl, ◌∙◌, ◌⊎◌, inl, inr, Bool, true, false, Option, none, some, eqb, Eq, ◌==◌,
  arith, if◌then◌else◌,
}
use movie.Persistence.Errors.{PersistenceError, returned}
use movie.Persistence.Model.{PersistenceId, Content, WriteResult}
use movie.Persistence.Store.Tables.{Database, OperationRow, actual_revision, find_operation}
use movie.Persistence.Store.Mutate.{Mutation, commit, mutate}
use movie.Persistence.Store.Transaction.{
  returning, Connection, Failure, own, Fault, refused, interrupted, Faults, Run, failed, done,
  Action, ◌>>=◌, await, commit_working, roll_back_unless, handled, upsert_state, add_operation,
  add_change, raise_watermark, repeated, write_all, executed, looked_up, mutate_connection,
}

module _ {F : Type 0} ⦃same : Eq F⦄ (fingerprint : Content → F) (slice : PersistenceId → ℕ) where
  -- No transaction is open, and the connection sees what is committed.
  pub record IsIdle (c : Connection F) : Type 0 where
    pub no_transaction : c.in_transaction ≡ false
    pub same_tables : c.working ≡ c.committed

  -- The call has returned, and has done what the transaction does as a whole.
  pub record IsCommitted (m : Mutation) (c after : Connection F) (w : WriteResult) : Type 0 where
    pub whole : mutate fingerprint slice false m c.committed ≡ (returned w, after.committed)
    pub idle : IsIdle after

  -- The call has raised, and nothing of it is committed, nor seen if the rollback is done.
  pub record IsRolledBack (faults : Faults) (c after : Connection F) : Type 0 where
    pub kept : after.committed ≡ c.committed
    pub idle : faults.rollback ≡ none → IsIdle after

  -- The call has raised, since it was cancelled in its commit, which is done all the same.
  abbrev pub IsCancelled : Faults → Mutation → Connection F → Connection F → Type 0
  IsCancelled faults m c after =
      ((e : Failure) × (faults.commit ≡ some (interrupted e)))
      × ((w : WriteResult) × IsCommitted m c after w)

  abbrev pub IsAtomic : Faults → Mutation → Connection F → Run WriteResult × Connection F → Type 0
  IsAtomic faults m c (done w, after) = IsCommitted m c after w
  IsAtomic faults m c (failed e, after) = IsRolledBack faults c after ⊎ IsCancelled faults m c after

  roll_back_unless-committed :
      (fault : Option Fault) (d : Connection F) → (roll_back_unless fault d).committed ≡ d.committed
  roll_back_unless-committed none d = refl
  roll_back_unless-committed (some (refused e)) d = refl
  roll_back_unless-committed (some (interrupted e)) d = refl

  roll_back_unless-IsIdle :
      (fault : Option Fault) (d : Connection F) → fault ≡ none → IsIdle (roll_back_unless fault d)
  roll_back_unless-IsIdle none d h = record { no_transaction = refl; same_tables = refl }
  roll_back_unless-IsIdle (some fault) d h = absurd (cc h)

  -- An exception at any point, with whatever the connection sees then.
  handled-IsAtomic :
      (faults : Faults) (m : Mutation) (c d : Connection F) (e : Failure)
      → d.committed ≡ c.committed
      → IsAtomic faults m c (handled faults.rollback (failed e, d))
  handled-IsAtomic faults m c d e k = inl (record {
    kept = roll_back_unless-committed faults.rollback d ∙ k;
    idle = roll_back_unless-IsIdle faults.rollback d;
  })

  -- One step, and what follows it.
  await-IsAtomic :
      (faults : Faults) (m : Mutation) (c d : Connection F) (fault : Option Fault)
      → (effect : Connection F → Connection F) (next : Action F WriteResult)
      → d.committed ≡ c.committed
      → (effect d).committed ≡ c.committed
      → IsAtomic faults m c (handled faults.rollback (next (effect d)))
      → IsAtomic faults m c (handled faults.rollback ((await fault effect >>= λ u. next) d))
  await-IsAtomic faults m c d none effect next k kept h = h
  await-IsAtomic faults m c d (some (refused e)) effect next k kept h =
      handled-IsAtomic faults m c d e k
  await-IsAtomic faults m c d (some (interrupted e)) effect next k kept h =
      handled-IsAtomic faults m c (effect d) e kept

  -- What is committed stays, whether a rollback that follows is done or not.
  roll_back_unless-IsCommitted :
      (m : Mutation) (c d : Connection F) (w : WriteResult) (fault : Option Fault)
      → IsCommitted m c (commit_working d) w
      → IsCommitted m c (roll_back_unless fault (commit_working d)) w
  roll_back_unless-IsCommitted m c d w none h = record {
    whole = h.whole;
    idle = record { no_transaction = refl; same_tables = refl };
  }
  roll_back_unless-IsCommitted m c d w (some (refused e)) h = h
  roll_back_unless-IsCommitted m c d w (some (interrupted e)) h = record {
    whole = h.whole;
    idle = record { no_transaction = refl; same_tables = refl };
  }

  -- The commit, as the last step.
  commit_working-IsAtomic :
      (faults : Faults) (m : Mutation) (c d : Connection F) (w : WriteResult) (fault : Option Fault)
      → faults.commit ≡ fault
      → d.committed ≡ c.committed
      → IsCommitted m c (commit_working d) w
      → IsAtomic faults m c
          (handled faults.rollback ((await fault commit_working >>= λ u. returning w) d))
  commit_working-IsAtomic faults m c d w none e k h = h
  commit_working-IsAtomic faults m c d w (some (refused f)) e k h =
      handled-IsAtomic faults m c d f k
  commit_working-IsAtomic faults m c d w (some (interrupted f)) e k h =
      inr ((f, e), (w, roll_back_unless-IsCommitted m c d w faults.rollback h))

  -- A test, and what follows it.
  choose-IsAtomic :
      (faults : Faults) (m : Mutation) (c d : Connection F) (b : Bool) (x y : Action F WriteResult)
      → (b ≡ true → IsAtomic faults m c (handled faults.rollback (x d)))
      → (b ≡ false → IsAtomic faults m c (handled faults.rollback (y d)))
      → IsAtomic faults m c (handled faults.rollback ((if b then x else y) d))
  choose-IsAtomic faults m c d true x y h k = h refl
  choose-IsAtomic faults m c d false x y h k = k refl

  -- The connection in the transaction, with the tables that its statements have made.
  abbrev within : Connection F → Database F → Connection F
  within c db = record { committed = c.committed; working = db; in_transaction = true }

  write_all-IsAtomic :
      (faults : Faults) (m : Mutation) (c : Connection F)
      → find_operation m.persistence_id m.operation_id c.committed.operations ≡ none
      → actual_revision m.persistence_id c.committed.states ≡ m.expected_revision
      → IsAtomic faults m c (
          handled faults.rollback (
            write_all fingerprint slice faults m
              (suc (actual_revision m.persistence_id c.committed.states))
              (within c c.committed)))
  unfolding mutate commit
  write_all-IsAtomic faults m c new current =
      let revision = suc (actual_revision m.persistence_id c.committed.states) in
      let one = upsert_state fingerprint slice m revision c.committed in
      let two = add_operation fingerprint slice m revision one in
      let three = add_change fingerprint slice m revision two in
      let four = raise_watermark fingerprint slice three in
      await-IsAtomic faults m c (within c c.committed) faults.insert_state _ _ refl refl (
        await-IsAtomic faults m c (within c one) faults.insert_operation _ _ refl refl (
          await-IsAtomic faults m c (within c two) faults.insert_change _ _ refl refl (
            await-IsAtomic faults m c (within c three) faults.update_feed _ _ refl refl (
              commit_working-IsAtomic faults m c (within c four) _ faults.commit refl refl (record {
                whole = ground (arith, new, current);
                idle = record { no_transaction = refl; same_tables = refl };
              })))))

  repeated-IsAtomic :
      (faults : Faults) (m : Mutation) (c : Connection F) (row : OperationRow F)
      → find_operation m.persistence_id m.operation_id c.committed.operations ≡ some row
      → IsAtomic faults m c
          (handled faults.rollback (repeated fingerprint slice faults m row (within c c.committed)))
  unfolding mutate
  repeated-IsAtomic faults m c row found =
      choose-IsAtomic faults m c (within c c.committed) (row.fingerprint == fingerprint m.content) _
        _
        (λ again.
          commit_working-IsAtomic faults m c (within c c.committed) _ faults.commit refl refl
            (record {
              whole = ground (arith, found, again);
              idle = record { no_transaction = refl; same_tables = refl };
            }))
        (λ differs.
          handled-IsAtomic faults m c (within c c.committed)
            (own PersistenceError.operation_conflict) refl)

  executed-IsAtomic :
      (faults : Faults) (m : Mutation) (c : Connection F)
      → find_operation m.persistence_id m.operation_id c.committed.operations ≡ none
      → IsAtomic faults m c
          (handled faults.rollback (executed fingerprint slice faults m (within c c.committed)))
  executed-IsAtomic faults m c new =
      let actual = actual_revision m.persistence_id c.committed.states in
      await-IsAtomic faults m c (within c c.committed) faults.select_revision _ _ refl refl (
        choose-IsAtomic faults m c (within c c.committed) (eqb actual m.expected_revision) _ _
          (λ current. write_all-IsAtomic faults m c new (ground (arith, current)))
          (λ moved.
            handled-IsAtomic faults m c (within c c.committed)
              (own (PersistenceError.concurrent_write m.expected_revision actual)) refl))

  looked_up-IsAtomic :
      (faults : Faults) (m : Mutation) (c : Connection F) (found : Option (OperationRow F))
      → find_operation m.persistence_id m.operation_id c.committed.operations ≡ found
      → IsAtomic faults m c (
          handled faults.rollback
            (looked_up fingerprint slice faults m found (within c c.committed)))
  looked_up-IsAtomic faults m c none e = executed-IsAtomic faults m c e
  looked_up-IsAtomic faults m c (some row) e = repeated-IsAtomic faults m c row e

  -- Whichever of its steps raise, refused or cancelled while the statement is executed all the same, a call of
  -- `_mutate` is all or nothing. One that returns has committed what the transaction does as a whole. One that
  -- raises has committed nothing, from whatever point, unless it was cancelled in its commit, and has then
  -- committed the whole. Afterwards no transaction is open and the connection sees what is
  -- committed, unless the rollback itself has raised.
  pub mutate_connection-IsAtomic :
      (faults : Faults) (m : Mutation) (c : Connection F)
      → IsAtomic faults m c (mutate_connection fingerprint slice faults m c)
  unfolding mutate_connection
  mutate_connection-IsAtomic faults m c =
      await-IsAtomic faults m c c faults.deadline _ _ refl refl (
        await-IsAtomic faults m c c faults.begin _ _ refl refl (
          await-IsAtomic faults m c (within c c.committed) faults.late_deadline _ _ refl refl (
            await-IsAtomic faults m c (within c c.committed) faults.select_operation _ _ refl refl (
              looked_up-IsAtomic faults m c
                (find_operation m.persistence_id m.operation_id c.committed.operations) refl))))
