-- ===== src/Future/Callbacks.antt =====
-- Each callback is run once, in the order of registration, and none is left behind.
use movie.Common.{
  ℕ, ◌<◌, ◌≡◌, refl, sym, ap, ◌∙◌, not, ◌&&◌, Bool, true, false, List, [], ◌∷◌, ◌++◌, append-nil,
  append_assoc, List-cases, inl, inr, Option, some, is_empty, arith, if◌then◌else◌,
}
use movie.Future.State.{
  RuntimeFuture, new_future, bind_callback_submit, set_cancel_hook, cancel, add_done_callback,
  add_internal_done_callback, invoke_callbacks, drain_block, set_running, settle, is_settled,
}
use movie.Future.Machine
use movie.Future.Machine.{Shared, ◌⟶◌, Reachable, submit_if, run_if, invoked, drained, fresh}

-- One while the flag is set, and none else.
abbrev pub one_if : Bool → ℕ
one_if true = 1
one_if false = 0

module _ {V C H : Type 0} where
  -- What waits to be run of the user callbacks, and of the internal ones.
  abbrev pub waiting : RuntimeFuture V C H → List C
  waiting f = if f.callbacks_started then f.pending_callbacks else f.done_callbacks

  abbrev pub waiting_internal : RuntimeFuture V C H → List C
  waiting_internal f = if f.callbacks_started then [] else f.internal_callbacks

  pub record RunsInOrder (s : Shared V C H) : Type 0 where
    pub in_order : s.ran ++ waiting s.future ≡ s.registered
    pub internal_in_order : s.ran_internal ++ waiting_internal s.future ≡ s.registered_internal
    pub one_runner : s.runners ≡ one_if s.future.callback_draining
    pub none_stranded :
        s.future.callbacks_started && not (is_empty s.future.pending_callbacks) ≡ true
        → s.future.callback_draining ≡ true
    pub settled : s.future.callbacks_started ≡ true → is_settled s.future.state ≡ true
    pub not_begun :
        s.future.callbacks_started ≡ false
        → (s.ran ≡ [])
          × (s.ran_internal ≡ [])
          × (s.future.pending_callbacks ≡ [])
          × (s.future.callback_draining ≡ false)

  new-RunsInOrder : (c b : Bool) → RunsInOrder (fresh {V = V} {C = C} {H = H} c b)
  unfolding new_future
  new-RunsInOrder c b = record {
    in_order = refl;
    internal_in_order = refl;
    one_runner = refl;
    none_stranded = λ h. cc;
    not_begun = λ h. (refl, refl, refl, refl);
    settled = λ h. cc;
  }

  -- Steps that do not concern the callbacks.
  pub record SameCallbacks (f g : RuntimeFuture V C H) : Type 0 where
    pub done : g.done_callbacks ≡ f.done_callbacks
    pub internal : g.internal_callbacks ≡ f.internal_callbacks
    pub pending : g.pending_callbacks ≡ f.pending_callbacks
    pub started : g.callbacks_started ≡ f.callbacks_started
    pub draining : g.callback_draining ≡ f.callback_draining
    pub still_settled : is_settled f.state ≡ true → is_settled g.state ≡ true

  SameCallbacks-RunsInOrder :
      (s : Shared V C H) (g : RuntimeFuture V C H)
      → SameCallbacks s.future g
      → RunsInOrder s
      → RunsInOrder (record s { future = g })
  SameCallbacks-RunsInOrder s g e h = record {
    in_order = rw (e.started, e.pending, e.done) h.in_order;
    internal_in_order = rw (e.started, e.internal) h.internal_in_order;
    one_runner = h.one_runner ∙ ap one_if (sym e.draining);
    none_stranded = rw (e.started, e.pending, e.draining) h.none_stranded;
    not_begun = rw (e.started, e.pending, e.draining) h.not_begun;
    settled = λ b. e.still_settled (h.settled (sym e.started ∙ b));
  }

  bind-SameCallbacks :
      (hook : Option H) (f g : RuntimeFuture V C H)
      → bind_callback_submit hook f ≡ some g
      → SameCallbacks f g
  unfolding bind_callback_submit
  bind-SameCallbacks hook f g h = record {
    done = ground arith;
    internal = ground arith;
    pending = ground arith;
    started = ground arith;
    draining = ground arith;
    still_settled = ground arith;
  }

  set_cancel_hook-SameCallbacks :
      (hook : H) (now : Bool) (f g : RuntimeFuture V C H)
      → set_cancel_hook hook f ≡ some (now, g)
      → SameCallbacks f g
  unfolding set_cancel_hook
  set_cancel_hook-SameCallbacks hook now f g h = record {
    done = ground arith;
    internal = ground arith;
    pending = ground arith;
    started = ground arith;
    draining = ground arith;
    still_settled = ground arith;
  }

  cancel-SameCallbacks : (f : RuntimeFuture V C H) → SameCallbacks f (cancel f).1
  unfolding cancel
  cancel-SameCallbacks f = record {
    done = ground arith;
    internal = ground arith;
    pending = ground arith;
    started = ground arith;
    draining = ground arith;
    still_settled = ground arith;
  }

  set_running-SameCallbacks :
      (now : Bool) (f g : RuntimeFuture V C H) → set_running f ≡ some (now, g) → SameCallbacks f g
  unfolding set_running
  set_running-SameCallbacks now f g h = record {
    done = ground arith;
    internal = ground arith;
    pending = ground arith;
    started = ground arith;
    draining = ground arith;
    still_settled = ground arith;
  }

  settle-SameCallbacks :
      (v : V) (f g : RuntimeFuture V C H) → settle v f ≡ some g → SameCallbacks f g
  unfolding settle
  settle-SameCallbacks v f g h = record {
    done = ground arith;
    internal = ground arith;
    pending = ground arith;
    started = ground arith;
    draining = ground arith;
    still_settled = ground arith;
  }

  -- The future of a step, with the rest of its effect.
  abbrev pub after_add : C → Shared V C H → Shared V C H
  after_add fn s = record s {
    future = (add_done_callback fn s.future).1;
    runners = submit_if (add_done_callback fn s.future).0 s.runners;
    registered = s.registered ++ (fn ∷ []);
  }

  add_done_callback-RunsInOrder :
      (fn : C) (s : Shared V C H) → RunsInOrder s → RunsInOrder (after_add fn s)
  unfolding add_done_callback
  add_done_callback-RunsInOrder fn s h = record {
    in_order = ground (
      arith,
      h.in_order,
      h.settled,
      append_assoc s.ran s.future.pending_callbacks (fn ∷ []),
      append_assoc s.ran s.future.done_callbacks (fn ∷ []),
    );
    internal_in_order = ground (arith, h.internal_in_order, h.settled);
    one_runner = ground (arith, h.one_runner);
    none_stranded = ground (arith, h.none_stranded);
    settled = ground (arith, h.settled);
    not_begun = λ b. (
      ground (arith, h.not_begun),
      ground (arith, h.not_begun),
      ground (arith, h.not_begun),
      ground (arith, h.not_begun),
    );
  }

  abbrev pub after_add_internal : C → Shared V C H → Shared V C H
  after_add_internal fn s = record s {
    future = (add_internal_done_callback fn s.future).1;
    registered_internal = s.registered_internal ++ (fn ∷ []);
    ran_internal = run_if (add_internal_done_callback fn s.future).0 fn s.ran_internal;
  }

  add_internal_done_callback-RunsInOrder :
      (fn : C) (s : Shared V C H) → RunsInOrder s → RunsInOrder (after_add_internal fn s)
  unfolding add_internal_done_callback
  add_internal_done_callback-RunsInOrder fn s h = record {
    in_order = ground (arith, h.in_order);
    internal_in_order = ground (
      arith,
      h.internal_in_order,
      h.settled,
      append-nil s.ran_internal,
      append-nil (s.ran_internal ++ (fn ∷ [])),
      append_assoc s.ran_internal s.future.internal_callbacks (fn ∷ []),
    );
    one_runner = ground (arith, h.one_runner);
    none_stranded = ground (arith, h.none_stranded);
    settled = ground (arith, h.settled);
    not_begun = λ b. (
      ground (arith, h.not_begun),
      ground (arith, h.not_begun),
      ground (arith, h.not_begun),
      ground (arith, h.not_begun),
    );
  }

  invoke_callbacks-RunsInOrder :
      (s : Shared V C H)
      → is_settled s.future.state ≡ true
      → RunsInOrder s
      → RunsInOrder (invoked (invoke_callbacks s.future) s)
  unfolding invoke_callbacks
  invoke_callbacks-RunsInOrder s done h = record {
    in_order = ground (arith, h.in_order, h.not_begun);
    internal_in_order =
        ground
          (arith, h.internal_in_order, append-nil (s.ran_internal ++ s.future.internal_callbacks));
    one_runner = ground (arith, h.one_runner, h.not_begun);
    none_stranded = ground (arith, h.none_stranded, h.not_begun);
    settled = ground (arith, h.settled);
    not_begun = ground (arith, h.not_begun);
  }

  drain_block-RunsInOrder :
      (s : Shared V C H)
      → 0 < s.runners
      → RunsInOrder s
      → RunsInOrder (drained (drain_block s.future) s)
  unfolding drain_block
  drain_block-RunsInOrder s ready h = elim (List-cases s.future.pending_callbacks) [
    | inl none_left ↦ record {
      in_order = ground (arith, h.in_order, none_left);
      internal_in_order = ground (arith, h.internal_in_order, none_left);
      one_runner = ground (arith, h.one_runner, ready, none_left);
      none_stranded = ground (arith, none_left);
      settled = ground (arith, h.settled, none_left);
      not_begun = λ b. (
        ground (arith, h.not_begun, none_left),
        ground (arith, h.not_begun, none_left),
        ground (arith, h.not_begun, none_left),
        ground (arith, h.not_begun, none_left),
      );
    }
    | inr (c, rest, some_left) ↦ record {
      in_order =
          ground (arith, h.in_order, h.not_begun, some_left, append_assoc s.ran (c ∷ []) rest);
      internal_in_order = ground (arith, h.internal_in_order, some_left);
      one_runner = ground (arith, h.one_runner, some_left);
      none_stranded = ground (arith, h.one_runner, some_left);
      settled = ground (arith, h.settled, some_left);
      not_begun = ground (arith, h.not_begun, some_left);
    }
  ]

  step-RunsInOrder : (s t : Shared V C H) → s ⟶ t → RunsInOrder s → RunsInOrder t
  step-RunsInOrder s _ (Machine.binds hook {f} e) h =
      SameCallbacks-RunsInOrder s f (bind-SameCallbacks hook s.future f e) h
  step-RunsInOrder s _ (Machine.sets_hook hook {now} {f} e) h =
      SameCallbacks-RunsInOrder s f (set_cancel_hook-SameCallbacks hook now s.future f e) h
  step-RunsInOrder s _ Machine.cancels h =
      SameCallbacks-RunsInOrder s (cancel s.future).1 (cancel-SameCallbacks s.future) h
  step-RunsInOrder s _ (Machine.starts_work {now} {f} e) h =
      SameCallbacks-RunsInOrder s f (set_running-SameCallbacks now s.future f e) h
  step-RunsInOrder s _ (Machine.settles v {f} e) h =
      SameCallbacks-RunsInOrder s f (settle-SameCallbacks v s.future f e) h
  step-RunsInOrder s _ (Machine.adds fn) h = add_done_callback-RunsInOrder fn s h
  step-RunsInOrder s _ (Machine.adds_internal fn) h = add_internal_done_callback-RunsInOrder fn s h
  step-RunsInOrder s _ (Machine.invokes done) h = invoke_callbacks-RunsInOrder s done h
  step-RunsInOrder s _ (Machine.drains ready) h = drain_block-RunsInOrder s ready h

  -- In every state that the threads bring a future to: the user callbacks that were handed to a
  -- drain, followed by those that wait, are those registered, in this order and each once; so are
  -- the internal ones; one drain is submitted or runs while the flag `_callback_draining` is set, and
  -- none else, and the flag is set whenever callbacks wait behind the settlement; and before a thread
  -- that has found the future settled has begun with the callbacks, none has run, internal ones included.
  pub Reachable-RunsInOrder :
      (cancellable bound : Bool) (s : Shared V C H) → Reachable cancellable bound s → RunsInOrder s
  Reachable-RunsInOrder cancellable bound _ Machine.starts = new-RunsInOrder cancellable bound
  Reachable-RunsInOrder cancellable bound t (Machine.steps {s} reached step) =
      step-RunsInOrder s t step (Reachable-RunsInOrder cancellable bound s reached)
