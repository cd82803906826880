-- ===== src/Persistence/Behavior/Invariant.antt =====
-- What a durable actor of movie/persistence/behavior.py is at every moment, by what it waits for.
use movie.Common.{
  ℕ, suc, ◌≡◌, refl, sym, subst, inl, inr, Bool, true, false, Option, none, some, arith, Bool-cases,
  Option-cases, if◌then◌else◌,
}
use movie.Persistence.Errors.{Attempt, returned, raised}
use movie.Persistence.Model.{PersistenceId, DurableStateRecord, WriteResult}
use movie.Persistence.Store.Tables.{Database}
use movie.Persistence.Store.Mutate.{Mutation}
use movie.Persistence.Store.Revisions.{IsNext}
use movie.Persistence.Behavior.Effect.{Application, copy_state}
use movie.Persistence.Behavior.Actor.{
  DurableActor, PendingEffect, recovering, running, persisting, load_request, write_request,
  recovery_completed, write_completed, content_state, recovered, run_callbacks, finish,
  finish_recovered, after_recovery, complete_recovery, complete_write, begin_recovery,
}
use movie.Persistence.Behavior.System.{is_stopped}
use movie.Persistence.Behavior.Current.{Current, Current-next}

module _ {S C K F : Type 0} (app : Application S C K) (id : PersistenceId) where
  pub data Good (a : DurableActor S K) (db : Database F) : Type 0 where
    is_over : is_stopped a.phase ≡ true → Good a db
    is_loading :
        (duplicate : Bool)
        → a.phase ≡ recovering
        → a.suspended ≡ true
        → a.request ≡ some (load_request duplicate)
        → a.inbox ≡ none
        → Good a db
    is_loaded :
        (duplicate : Bool) (result : Attempt (Option DurableStateRecord))
        → a.phase ≡ recovering
        → a.suspended ≡ true
        → a.request ≡ none
        → a.inbox ≡ some (recovery_completed result duplicate)
        → ((found : Option DurableStateRecord) (state : S) (revision : ℕ)
            → result ≡ returned found
            → recovered app found ≡ some (state, revision)
            → Current app id db revision state)
        → Good a db
    is_running :
        (state : S)
        → a.phase ≡ running
        → a.suspended ≡ false
        → a.request ≡ none
        → a.inbox ≡ none
        → a.state ≡ some state
        → Current app id db a.revision state
        → Good a db
    is_writing :
        (m : Mutation) (state : S) (p : PendingEffect S K)
        → a.phase ≡ persisting
        → a.suspended ≡ true
        → a.request ≡ some (write_request m)
        → a.inbox ≡ none
        → a.state ≡ some state
        → a.pending ≡ some p
        → m.persistence_id ≡ id
        → m.expected_revision ≡ a.revision
        → content_state app m.content ≡ some p.state
        → Current app id db a.revision state
        → Good a db
    is_written :
        (result : Attempt WriteResult) (p : PendingEffect S K)
        → a.phase ≡ persisting
        → a.suspended ≡ true
        → a.request ≡ none
        → a.inbox ≡ some (write_completed result)
        → a.pending ≡ some p
        → ((w : WriteResult)
            → result ≡ returned w
            → w.duplicate ≡ false
            → (w.revision ≡ suc a.revision) × Current app id db w.revision p.state)
        → Good a db

  -- A transaction of another.
  pub Good-next :
      (a : DurableActor S K) (db db' : Database F) → IsNext id db db' → Good a db → Good a db'
  Good-next a db db' n (is_over o) = is_over o
  Good-next a db db' n (is_loading d h s r i) = is_loading d h s r i
  Good-next a db db' n (is_loaded d result h s r i k) =
      is_loaded d result h s r i (λ found state revision e f.
        Current-next app id db db' revision state n (k found state revision e f))
  Good-next a db db' n (is_running state h s r i t c) =
      is_running state h s r i t (Current-next app id db db' a.revision state n c)
  Good-next a db db' n (is_writing m state p h s r i t q o x y c) =
      is_writing m state p h s r i t q o x y (Current-next app id db db' a.revision state n c)
  Good-next a db db' n (is_written result p h s r i q k) = is_written result p h s r i q (λ w e d.
      let (next, c) = k w e d in (next, Current-next app id db db' w.revision p.state n c))

  -- The actor runs, at a revision written out.
  pub running-Good :
      (a : DurableActor S K) (db : Database F) (revision : ℕ) (state : S)
      → (a.phase ≡ running)
        × (a.suspended ≡ false)
        × (a.request ≡ none)
        × (a.inbox ≡ none)
        × (a.state ≡ some state)
        × (a.revision ≡ revision)
      → Current app id db revision state
      → Good a db
  running-Good a db revision state (h, s, r, i, t, e) c =
      is_running state h s r i t (subst (λ n. Current app id db n state) (sym e) c)

  finish-Good :
      (p : PendingEffect S K) (state : S) (a : DurableActor S K) (db : Database F)
      → a.request ≡ none
      → a.inbox ≡ none
      → Current app id db a.revision state
      → Good (finish app p state a) db
  finish-Good p state a db r i c = elim (Bool-cases (run_callbacks app p.callbacks state).1) [
    | inr raises ↦ is_over (ground (arith, raises))
    | inl ok ↦ elim (Bool-cases p.stop) [
      | inl stop ↦ is_over (ground (arith, ok, stop))
      | inr go ↦
          running-Good (finish app p state a) db a.revision state (ground (arith, ok, go, r, i)) c
    ]
  ]

  recovered-Good :
      (duplicate : Bool) (p : Option (PendingEffect S K)) (state : S) (a : DurableActor S K)
      (db : Database F)
      → a.request ≡ none
      → a.inbox ≡ none
      → a.state ≡ some state
      → Current app id db a.revision state
      → Good
          (if duplicate
            then finish_recovered app p state a
            else record a { phase = running; suspended = false })
          db
  recovered-Good true none state a db r i t c = is_over refl
  recovered-Good true (some p) state a db r i t c = finish-Good p state a db r i c
  recovered-Good false p state a db r i t c = is_running state refl refl r i t c

  after_recovery-Good :
      (duplicate : Bool) (found : Option (S × ℕ)) (a : DurableActor S K) (db : Database F)
      → a.request ≡ none
      → a.inbox ≡ none
      → ((state : S) (revision : ℕ)
          → found ≡ some (state, revision)
          → Current app id db revision state)
      → Good (after_recovery app duplicate found a) db
  after_recovery-Good duplicate none a db r i k = is_over refl
  after_recovery-Good duplicate (some (state, revision)) a db r i k =
      elim (Option-cases (copy_state app state)) [
        | inl bad ↦ is_over (ground (arith, bad))
        | inr (copy, copied) ↦ elim (Bool-cases (app.on_recovery_completed copy revision)) [
          | inr raises ↦ is_over (ground (arith, copied, raises))
          | inl ok ↦
              let b : DurableActor S K = record a { state = some state; revision = revision } in
              subst (λ x. Good x db)
                {x = if duplicate
                  then finish_recovered app b.pending state b
                  else record b { phase = running; suspended = false }}
                (ground (arith, copied, ok))
                (recovered-Good duplicate b.pending state b db r i refl (k state revision refl))
        ]
      ]

  pub complete_recovery-Good :
      (result : Attempt (Option DurableStateRecord)) (duplicate : Bool) (a : DurableActor S K)
      (db : Database F)
      → a.request ≡ none
      → a.inbox ≡ none
      → ((found : Option DurableStateRecord) (state : S) (revision : ℕ)
          → result ≡ returned found
          → recovered app found ≡ some (state, revision)
          → Current app id db revision state)
      → Good (complete_recovery app result duplicate a) db
  unfolding complete_recovery
  complete_recovery-Good (raised e) duplicate a db r i k = is_over refl
  complete_recovery-Good (returned found) duplicate a db r i k =
      after_recovery-Good duplicate (recovered app found) a db r i
        (λ state revision h. k found state revision refl h)

  begin_recovery-Good :
      (accepted : Bool) (duplicate : Bool) (a : DurableActor S K) (db : Database F)
      → a.suspended ≡ true
      → a.inbox ≡ none
      → Good (begin_recovery accepted duplicate a) db
  begin_recovery-Good true duplicate a db s i = is_loading duplicate refl s refl i
  begin_recovery-Good false duplicate a db s i = is_over refl

  pub complete_write-Good :
      (accepted : Bool) (result : Attempt WriteResult) (p : PendingEffect S K)
      (a : DurableActor S K) (db : Database F)
      → a.suspended ≡ true
      → a.request ≡ none
      → a.inbox ≡ none
      → a.pending ≡ some p
      → ((w : WriteResult)
          → result ≡ returned w
          → w.duplicate ≡ false
          → (w.revision ≡ suc a.revision) × Current app id db w.revision p.state)
      → Good (complete_write app accepted result a) db
  unfolding complete_write
  complete_write-Good accepted (raised e) p a db s r i q k = is_over refl
  complete_write-Good accepted (returned w) p a db s r i q k = elim (Bool-cases w.duplicate) [
    | inl again ↦
        subst (λ x. Good x db) {x = begin_recovery accepted true a} (ground (arith, again))
          (begin_recovery-Good accepted true a db s i)
    | inr first ↦
        let (next, c) = k w refl first in
        subst (λ x. Good x db) {x = finish app p p.state (record a { revision = w.revision })}
          (ground (arith, first, next, q))
          (finish-Good p p.state (record a { revision = w.revision }) db r i c)
  ]
