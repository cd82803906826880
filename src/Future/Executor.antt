-- ===== src/Future/Executor.antt =====
-- `CallbackExecutor` of movie/future.py: its queue and its workers, as a step relation.
use movie.Common.{
  ℕ, zero, suc, ◌-◌, ◌<◌, ◌≡◌, refl, sym, ap, ◌∙◌, leb, eqb, Bool, true, false, List, [], ◌∷◌, ◌++◌,
  append-nil, append_assoc, map, replicate, Option, none, some, arith, if◌then◌else◌, Bool-cases,
  inl, inr,
}

pub record CallbackExecutor (C : Type 0) : Type 0 where
  pub worker_count : ℕ
  pub queue : List (Option C)
  -- the workers that were started, which is all or none
  pub threads : ℕ
  pub closed : Bool

-- The executor with its workers that live, and the callbacks that it has taken, handed to a worker
-- and run inline.
pub record Running (C : Type 0) : Type 0 where
  pub executor : CallbackExecutor C
  pub live : ℕ
  pub accepted : List C
  pub handed : List C
  pub inline : List C

module _ {C : Type 0} where
  -- `__init__`, `none` where it raises ValueError
  unfoldable pub new_executor : ℕ → Option (CallbackExecutor C)
  new_executor workers =
      if leb workers 0
      then none
      else some (record { worker_count = workers; queue = []; threads = 0; closed = false })

  -- The block of `submit`: whether the callback is run inline.
  unfoldable pub submit : C → CallbackExecutor C → Bool × CallbackExecutor C
  submit callback e = if e.closed then (true, e) else (
    false,
    record e {
      threads = if eqb e.threads 0 then e.worker_count else e.threads;
      queue = e.queue ++ (some callback ∷ []);
    },
  )

  -- The block of `close`: one `None` for each thread.
  unfoldable pub close_executor : CallbackExecutor C → CallbackExecutor C
  close_executor e =
      if e.closed
      then e
      else record e { closed = true; queue = e.queue ++ replicate e.threads none }

  abbrev pub submitted : C → Bool × CallbackExecutor C → Running C → Running C
  submitted c (true, e) r = record r { executor = e; inline = r.inline ++ (c ∷ []) }
  submitted c (false, e) r = record r {
    executor = e;
    live = if eqb r.executor.threads 0 then e.threads else r.live;
    accepted = r.accepted ++ (c ∷ []);
  }

  -- What a worker does with an element of the queue: `_run`.
  abbrev pub worked : Option C → List (Option C) → Running C → Running C
  worked none rest r = record r { executor = record r.executor { queue = rest }; live = r.live - 1 }
  worked (some c) rest r = record r {
    executor = record r.executor { queue = rest };
    handed = r.handed ++ (c ∷ []);
  }

  infix 3 ◌⟶◌
  pub data ◌⟶◌ (r : Running C) : Running C → Type 0 where
    submits : (c : C) → r ⟶ submitted c (submit c r.executor) r
    closes : r ⟶ record r { executor = close_executor r.executor }
    works :
        (next : Option C) (rest : List (Option C))
        → 0 < r.live
        → r.executor.queue ≡ next ∷ rest
        → r ⟶ worked next rest r

  pub data Reachable (workers : ℕ) : Running C → Type 0 where
    starts :
        {e : CallbackExecutor C}
        → new_executor workers ≡ some e
        → Reachable workers
            (record { executor = e; live = 0; accepted = []; handed = []; inline = [] })
    steps : {r s : Running C} → Reachable workers r → r ⟶ s → Reachable workers s

  pub record IsSound (r : Running C) : Type 0 where
    pub waiting : List C
    pub queue_is :
        r.executor.queue
        ≡ map some waiting ++ replicate (if r.executor.closed then r.live else 0) none
    pub in_order : r.accepted ≡ r.handed ++ waiting
    pub all_live : r.executor.closed ≡ false → r.live ≡ r.executor.threads
    pub none_left : r.live ≡ 0 → waiting ≡ []
    pub has_workers : 0 < r.executor.worker_count

  map-append_one : (c : C) (cs : List C) → map some (cs ++ (c ∷ [])) ≡ map some cs ++ (some c ∷ [])
  map-append_one c [] = refl
  map-append_one c (x ∷ cs) = ap (◌∷◌ (some x)) (map-append_one c cs)

  submit-IsSound :
      (c : C) (r : Running C) → IsSound r → IsSound (submitted c (submit c r.executor) r)
  unfolding submit
  submit-IsSound c r h = elim (Bool-cases r.executor.closed) [
    | inl closed ↦ record {
      waiting = h.waiting;
      queue_is = ground (arith, closed, h.queue_is);
      in_order = ground (arith, closed, h.in_order);
      all_live = ground (arith, closed);
      none_left = ground (arith, closed, h.none_left);
      has_workers = ground (arith, closed, h.has_workers);
    }
    | inr open_still ↦ record {
      waiting = h.waiting ++ (c ∷ []);
      queue_is = ground (
        arith,
        open_still,
        h.queue_is,
        map-append_one c h.waiting,
        append-nil (map some h.waiting),
        append-nil (map some h.waiting ++ (some c ∷ [])),
      );
      in_order = ground (arith, open_still, h.in_order, append_assoc r.handed h.waiting (c ∷ []));
      all_live = ground (arith, open_still, h.all_live);
      none_left = ground (arith, open_still, h.all_live, h.has_workers);
      has_workers = ground (arith, open_still, h.has_workers);
    }
  ]

  close-IsSound :
      (r : Running C) → IsSound r → IsSound (record r { executor = close_executor r.executor })
  unfolding close_executor
  close-IsSound r h = record {
    waiting = h.waiting;
    queue_is = ground (arith, h.queue_is, h.all_live, append-nil (map some h.waiting));
    in_order = h.in_order;
    all_live = ground (arith, h.all_live);
    none_left = h.none_left;
    has_workers = ground (arith, h.has_workers);
  }

  -- What the head of the queue is.
  work-IsSound :
      (r : Running C) (next : Option C) (rest : List (Option C)) (waiting : List C) (closed : Bool)
      (live : ℕ)
      → r.executor.closed ≡ closed
      → r.live ≡ live
      → 0 < live
      → next ∷ rest ≡ map some waiting ++ replicate (if closed then live else 0) none
      → r.accepted ≡ r.handed ++ waiting
      → (r.executor.closed ≡ false → r.live ≡ r.executor.threads)
      → 0 < r.executor.worker_count
      → IsSound (worked next rest r)
  work-IsSound r next rest [] false live c l pos q o a w = absurd (cc q)
  work-IsSound r none rest [] true (suc live) c l pos q o a w = record {
    waiting = [];
    queue_is = ground (arith, c, l, q);
    in_order = o;
    all_live = ground (arith, c);
    none_left = λ _. refl;
    has_workers = w;
  }
  work-IsSound r (some x) rest [] true (suc live) c l pos q o a w = absurd (cc q)
  work-IsSound r next rest [] true zero c l pos q o a w = absurd (omega (arith, pos))
  work-IsSound r none rest (x ∷ xs) closed live c l pos q o a w = absurd (cc q)
  work-IsSound r (some y) rest (x ∷ xs) closed live c l pos q o a w = record {
    waiting = xs;
    queue_is = ground (arith, c, l, q);
    in_order = ground (arith, q, o, append_assoc r.handed (x ∷ []) xs);
    all_live = a;
    none_left = λ z. absurd (omega (arith, z, l, pos));
    has_workers = w;
  }

  step-IsSound : (r s : Running C) → r ⟶ s → IsSound r → IsSound s
  step-IsSound r _ (submits c) h = submit-IsSound c r h
  step-IsSound r _ closes h = close-IsSound r h
  step-IsSound r _ (works next rest pos q) h =
      work-IsSound r next rest h.waiting r.executor.closed r.live refl refl pos (sym q ∙ h.queue_is)
        h.in_order h.all_live h.has_workers

  Reachable-IsSound : (workers : ℕ) (r : Running C) → Reachable workers r → IsSound r
  unfolding new_executor
  Reachable-IsSound workers _ (starts {e} made) = record {
    waiting = [];
    queue_is = ground (arith, made);
    in_order = refl;
    all_live = ground (arith, made);
    none_left = λ _. refl;
    has_workers = ground (arith, made);
  }
  Reachable-IsSound workers s (steps {r} reached step) =
      step-IsSound r s step (Reachable-IsSound workers r reached)

  -- When an executor has no worker that lives, because it was closed and each worker has met its end
  -- or because none was started, every callback that it has taken was handed to a worker, in the
  -- order of submission; and at any time the callbacks handed out are the first of those taken.
  pub Reachable-handed :
      (workers : ℕ) (r : Running C)
      → Reachable workers r
      → ((waiting : List C) × (r.handed ++ waiting ≡ r.accepted))
        × (r.live ≡ 0 → r.handed ≡ r.accepted)
  Reachable-handed workers r reached =
      let h = Reachable-IsSound workers r reached in
      (
        (h.waiting, sym h.in_order),
        λ z.
            sym (append-nil r.handed)
            ∙ ap (λ x. r.handed ++ x) (sym (h.none_left z))
            ∙ sym h.in_order,
      )
