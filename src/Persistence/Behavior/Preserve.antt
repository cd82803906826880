-- ===== src/Persistence/Behavior/Preserve.antt =====
-- The commands of a durable actor of movie/persistence/behavior.py, and every step of it and its store.
use movie.Common.{
  ℕ, suc, ◌≡◌, refl, sym, ap, ◌∙◌, subst, inl, inr, Bool, true, false, none, some, Eq, arith,
  Bool-cases, Option-cases,
}
use movie.Persistence.Model.{PersistenceId, Content}
use movie.Persistence.Store.Tables.{Database}
use movie.Persistence.Store.Mutate.{Mutation, mutate}
use movie.Persistence.Store.Load.{load}
use movie.Persistence.Behavior.Effect.{
  Application, copy_state, DurableEffect, EffectKind, none_kind, persist_kind, delete_kind, ◌>>?◌,
}
use movie.Persistence.Behavior.Actor.{
  DurableActor, PendingEffect, running, persisting, load_request, write_request, Completion,
  recovery_completed, write_completed, content_state, run_callbacks, submit_write, deliver,
  run_effect, receive,
}
use movie.Persistence.Store.Revisions.{step-IsNext}
use movie.Persistence.Behavior.System.{
  Pair, is_stopped, ◌⟶◌, receives, loads, writes, delivers, stops, others, Reachable, created, step,
}
use movie.Persistence.Behavior.Current.{Current, IsStable, load-Current, write-loads}
use movie.Persistence.Behavior.Invariant.{
  Good, is_over, is_loading, is_loaded, is_running, is_writing, is_written, Good-next, running-Good,
  complete_recovery-Good, complete_write-Good,
}

module _ {S C K F : Type 0} (app : Application S C K) (id : PersistenceId) where
  submit-Good :
      (accepted : Bool) (now operation_id : ℕ) (effect : DurableEffect S K) (content : Content)
      → (state : S) (a : DurableActor S K) (db : Database F)
      → (a.request ≡ none) × (a.inbox ≡ none) × (a.state ≡ some state)
      → Current app id db a.revision state
      → Good app id (submit_write app id accepted now operation_id effect content a) db
  submit-Good accepted now operation_id effect content state a db (r, i, t) c =
      elim (Option-cases (content_state app content)) [
        | inl bad ↦ is_over (ground (arith, bad))
        | inr (candidate, made) ↦
            let p : PendingEffect S K = record {
              state = candidate;
              callbacks = effect.callbacks;
              stop = effect.stop;
            } in
            let m : Mutation = record {
              persistence_id = id;
              expected_revision = a.revision;
              operation_id = operation_id;
              content = content;
              now = now;
            } in
            elim (Bool-cases accepted) [
              | inr refused ↦ is_over (ground (arith, made, refused))
              | inl taken ↦
                  subst (λ x. Good app id x db)
                    {x = record a {
                      pending = some p;
                      phase = persisting;
                      suspended = true;
                      request = some (write_request m);
                    }}
                    (ground (arith, made, taken))
                    (is_writing m state p refl refl refl i t refl refl refl made c)
            ]
      ]

  run_effect-Good :
      (accepted : Bool) (now : ℕ) (kind : EffectKind S) (effect : DurableEffect S K)
      → (state : S) (a : DurableActor S K) (db : Database F)
      → (a.phase ≡ running)
        × (a.suspended ≡ false)
        × (a.request ≡ none)
        × (a.inbox ≡ none)
        × (a.state ≡ some state)
      → Current app id db a.revision state
      → Good app id (run_effect app id accepted now kind effect state a) db
  run_effect-Good accepted now none_kind effect state a db (h, s, r, i, t) c =
      elim (Bool-cases (run_callbacks app effect.callbacks state).1) [
        | inr raises ↦ is_over (ground (arith, raises))
        | inl ok ↦ elim (Bool-cases effect.stop) [
          | inl stop ↦ is_over (ground (arith, ok, stop))
          | inr go ↦
              running-Good app id (run_effect app id accepted now none_kind effect state a) db
                a.revision state (ground (arith, ok, go, h, s, r, i, t)) c
        ]
      ]
  run_effect-Good accepted now (persist_kind new operation_id) effect state a db (h, s, r, i, t) c =
      elim (Option-cases (app.encode new)) [
        | inl bad ↦ is_over (ground (arith, bad))
        | inr (encoded, made) ↦
            subst (λ x. Good app id x db)
              {x = submit_write app id accepted now operation_id effect (some encoded) a}
              (ground (arith, made))
              (submit-Good accepted now operation_id effect (some encoded) state a db (r, i, t) c)
      ]
  run_effect-Good accepted now (delete_kind operation_id) effect state a db (h, s, r, i, t) c =
      submit-Good accepted now operation_id effect none state a db (r, i, t) c

  receive-Good :
      (accepted : Bool) (now : ℕ) (command : C) (state : S) (a : DurableActor S K) (db : Database F)
      → (a.phase ≡ running)
        × (a.suspended ≡ false)
        × (a.request ≡ none)
        × (a.inbox ≡ none)
        × (a.state ≡ some state)
      → Current app id db a.revision state
      → Good app id (receive app id accepted now command a) db
  unfolding receive
  receive-Good accepted now command state a db (h, s, r, i, t) c =
      elim (Option-cases (copy_state app state >>? λ (copy : S). app.handle_command copy command)) [
        | inl bad ↦ is_over (ground (arith, h, t, bad))
        | inr (effect, handled) ↦
            subst (λ x. Good app id x db)
              {x = run_effect app id accepted now effect.kind effect state a}
              (ground (arith, h, t, handled))
              (run_effect-Good accepted now effect.kind effect state a db (h, s, r, i, t) c)
      ]

module _ {S C K F : Type 0} ⦃same : Eq F⦄ (fingerprint : Content → F) (slice : PersistenceId → ℕ)
    (max_state_bytes : ℕ) (app : Application S C K) (id : PersistenceId) where
  abbrev IsGood : Pair S K F → Type 0
  IsGood p = Good app id p.actor p.store

  receives-Good :
      (accepted : Bool) (now : ℕ) (command : C) (a : DurableActor S K) (db : Database F)
      → is_stopped a.phase ≡ false
      → a.suspended ≡ false
      → Good app id a db
      → Good app id (receive app id accepted now command a) db
  receives-Good accepted now command a db live heard (is_over o) = absurd (cc (live, o))
  receives-Good accepted now command a db live heard (is_loading d h s r i) = absurd (cc (s, heard))
  receives-Good accepted now command a db live heard (is_loaded d result h s r i k) =
      absurd (cc (s, heard))
  receives-Good accepted now command a db live heard (is_running state h s r i t c) =
      receive-Good app id accepted now command state a db (h, s, r, i, t) c
  receives-Good accepted now command a db live heard (is_writing m state p h s r i t q o x y c) =
      absurd (cc (s, heard))
  receives-Good accepted now command a db live heard (is_written result p h s r i q k) =
      absurd (cc (s, heard))

  loads-Good :
      (expired duplicate : Bool) (a : DurableActor S K) (db : Database F)
      → a.request ≡ some (load_request duplicate)
      → Good app id a db
      → Good app id
          (record a {
            request = none;
            inbox = some (recovery_completed (load max_state_bytes expired id db) duplicate);
          })
          db
  loads-Good expired duplicate a db e (is_over o) = is_over o
  loads-Good expired duplicate a db e (is_loading d h s r i) =
      is_loaded duplicate (load max_state_bytes expired id db) h s refl refl
        (λ found state revision l f.
          load-Current app id max_state_bytes expired db found state revision l f)
  loads-Good expired duplicate a db e (is_loaded d result h s r i k) = absurd (cc (e, r))
  loads-Good expired duplicate a db e (is_running state h s r i t c) = absurd (cc (e, r))
  loads-Good expired duplicate a db e (is_writing m state p h s r i t q o x y c) =
      absurd (cc (e, r))
  loads-Good expired duplicate a db e (is_written result p h s r i q k) = absurd (cc (e, r))

  writes-Good :
      (expired : Bool) (m : Mutation) (a : DurableActor S K) (db : Database F)
      → IsStable app
      → a.request ≡ some (write_request m)
      → Good app id a db
      → Good app id
          (record a {
            request = none;
            inbox = some (write_completed (mutate fingerprint slice expired m db).0);
          })
          (mutate fingerprint slice expired m db).1
  writes-Good expired m a db stable e (is_over o) = is_over o
  writes-Good expired m a db stable e (is_loading d h s r i) = absurd (cc (e, r))
  writes-Good expired m a db stable e (is_loaded d result h s r i k) = absurd (cc (e, r))
  writes-Good expired m a db stable e (is_running state h s r i t c) = absurd (cc (e, r))
  writes-Good expired m a db stable e (is_writing n state p h s r i t q o x y c) =
      let sent : n ≡ m = cc (e, r) in
      is_written (mutate fingerprint slice expired m db).0 p h s refl refl q (λ w returns first.
        let (_, next, there, now) =
          write-loads fingerprint slice app id expired m db w p.state stable
            (ap (λ (n : Mutation). n.persistence_id) (sym sent) ∙ o)
            (ap (λ (n : Mutation). content_state app n.content) (sym sent) ∙ y) returns first in
        (
          next ∙ ap (λ (n : Mutation). suc n.expected_revision) (sym sent) ∙ ap suc x,
          (omega (arith, there), λ e. now),
        ))
  writes-Good expired m a db stable e (is_written result p h s r i q k) = absurd (cc (e, r))

  delivers-Good :
      (accepted : Bool) (completion : Completion) (a : DurableActor S K) (db : Database F)
      → is_stopped a.phase ≡ false
      → a.inbox ≡ some completion
      → Good app id a db
      → Good app id (deliver app accepted completion a) db
  delivers-Good accepted completion a db live e (is_over o) = absurd (cc (live, o))
  delivers-Good accepted completion a db live e (is_loading d h s r i) = absurd (cc (e, i))
  delivers-Good accepted completion a db live e (is_loaded d result h s r i k) =
      subst (λ x. Good app id (deliver app accepted x a) db) {x = recovery_completed result d}
        (cc (e, i)) (complete_recovery-Good app id result d (record a { inbox = none }) db r refl k)
  delivers-Good accepted completion a db live e (is_running state h s r i t c) = absurd (cc (e, i))
  delivers-Good accepted completion a db live e (is_writing n state p h s r i t q o x y c) =
      absurd (cc (e, i))
  delivers-Good accepted completion a db live e (is_written result p h s r i q k) =
      subst (λ x. Good app id (deliver app accepted x a) db) {x = write_completed result}
        (cc (e, i))
        (complete_write-Good app id accepted result p (record a { inbox = none }) db s r refl q k)

  step-Good :
      (p p' : Pair S K F)
      → IsStable app
      → ◌⟶◌ fingerprint slice max_state_bytes app id p p'
      → IsGood p
      → IsGood p'
  step-Good p _ stable (receives accepted now command live heard) g =
      receives-Good accepted now command p.actor p.store live heard g
  step-Good p _ stable (loads expired duplicate e) g =
      loads-Good expired duplicate p.actor p.store e g
  step-Good p _ stable (writes expired m e) g = writes-Good expired m p.actor p.store stable e g
  step-Good p _ stable (delivers accepted completion live e) g =
      delivers-Good accepted completion p.actor p.store live e g
  step-Good p _ stable stops g = is_over refl
  step-Good p _ stable (others store s) g =
      Good-next app id p.actor p.store store (step-IsNext fingerprint slice id p.store store s) g

  pub Reachable-Good :
      (p : Pair S K F)
      → IsStable app
      → Reachable fingerprint slice max_state_bytes app id p
      → IsGood p
  Reachable-Good _ stable (created true store) = is_loading false refl refl refl refl
  Reachable-Good _ stable (created false store) = is_over refl
  Reachable-Good _ stable (step {p} {p'} before s) =
      step-Good p p' stable s (Reachable-Good p stable before)
