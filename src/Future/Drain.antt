-- ===== src/Future/Drain.antt =====
-- The drain ends, with every callback run; and a settled future stays as it is.
use movie.Common.{
  ℕ, zero, suc, ◌+◌, ◌<◌, ◌≡◌, sym, ap, ◌∙◌, subst, ◌||◌, inl, inr, Bool, true, false, List, [],
  ◌∷◌, ◌++◌, append-nil, append_assoc, List-cases, some, none, arith,
}
use movie.Future.State.{
  RuntimeFuture, bind_callback_submit, set_cancel_hook, cancel, add_done_callback,
  add_internal_done_callback, invoke_callbacks, drain_block, set_running, settle, is_settled,
  FutureState,
}
use movie.Future.Machine
use movie.Future.Machine.{Shared, ◌⟶◌, Reachable, submit_if, run_if, invoked, drained}

module _ {C : Type 0} where
  -- The callbacks that these register.
  unfoldable pub registered_by : (C → List C) → List C → List C
  registered_by calls [] = []
  registered_by calls (c ∷ cs) = calls c ++ registered_by calls cs

  unfoldable pub total_size : (C → ℕ) → List C → ℕ
  total_size size [] = 0
  total_size size (c ∷ cs) = size c + total_size size cs

  total_size-append :
      (size : C → ℕ) (xs ys : List C)
      → total_size size (xs ++ ys) ≡ total_size size xs + total_size size ys
  unfolding total_size
  total_size-append size [] ys = omega arith
  total_size-append size (x ∷ xs) ys = omega (arith, total_size-append size xs ys)

  smaller :
      (size : C → ℕ) (c : C) (rest more : List C) (rounds : ℕ)
      → total_size size more < size c
      → total_size size (rest ++ more) ≡ total_size size rest + total_size size more
      → total_size size (c ∷ rest) < suc rounds
      → total_size size (rest ++ more) < rounds
  unfolding total_size
  smaller size c rest more rounds l e h = omega (arith, l, e, h)

-- What the loop has done: the callbacks that it ran, whether it has returned, whether another drain was
-- submitted meanwhile, and the future.
pub record Drained (V C H : Type 0) : Type 0 where
  pub ran : List C
  pub returned : Bool
  pub submitted : Bool
  pub future : RuntimeFuture V C H

module _ {V C H : Type 0} where
  -- The calls of `add_done_callback` that one callback makes, with whether one of them submits a drain.
  unfoldable pub register_all : List C → RuntimeFuture V C H → Bool × RuntimeFuture V C H
  register_all [] f = (false, f)
  register_all (c ∷ cs) f =
      let added = add_done_callback c f in
      let others = register_all cs added.1 in (added.0 || others.0, others.1)

  abbrev after_callback : C → Bool → Drained V C H → Drained V C H
  after_callback c submitted d = record d { ran = c ∷ d.ran; submitted = submitted || d.submitted }

  -- `_drain_user_callbacks` in at most so many rounds, where `callback(self)` registers the callbacks that
  -- the first argument gives for it, and other threads do nothing.
  unfoldable pub drain : (C → List C) → ℕ → RuntimeFuture V C H → Drained V C H
  drain calls zero f = record { ran = []; returned = false; submitted = false; future = f }
  drain calls (suc rounds) f =
      let block = drain_block f in
      elim block.0 [
        | none ↦ record { ran = []; returned = true; submitted = false; future = block.1 }
        | some c ↦
            let effect = register_all (calls c) block.1 in
            after_callback c effect.0 (drain calls rounds effect.1)
      ]

  -- A future whose drain runs.
  pub record IsDraining (f : RuntimeFuture V C H) : Type 0 where
    pub settled : is_settled f.state ≡ true
    pub started : f.callbacks_started ≡ true
    pub draining : f.callback_draining ≡ true

  register_all-pending :
      (cs : List C) (f : RuntimeFuture V C H)
      → IsDraining f
      → register_all cs f ≡ (false, record f { pending_callbacks = f.pending_callbacks ++ cs })
  unfolding register_all add_done_callback
  register_all-pending [] f h =
      ap (λ cs. (false, record f { pending_callbacks = cs })) (sym (append-nil f.pending_callbacks))
  register_all-pending (c ∷ cs) f h =
      let g = record f { pending_callbacks = f.pending_callbacks ++ (c ∷ []) } in
      let added : add_done_callback c f ≡ (false, g) =
        ground (arith, h.settled, h.started, h.draining) in
      let still : IsDraining g = record {
        settled = h.settled;
        started = h.started;
        draining = h.draining;
      } in
      let others = register_all-pending cs g still in
      let joined = append_assoc f.pending_callbacks (c ∷ []) cs in
      ap
        (λ (a : Bool × RuntimeFuture V C H).
          (a.0 || (register_all cs a.1).0, (register_all cs a.1).1))
        added
      ∙ ap (λ (a : Bool × RuntimeFuture V C H). (false || a.0, a.1)) others
      ∙ ap (λ ys. (false, record f { pending_callbacks = ys })) joined

  drain_step :
      (calls : C → List C) (f next : RuntimeFuture V C H) (c : C) (rest : List C) (rounds : ℕ)
      → f.pending_callbacks ≡ c ∷ rest
      → register_all (calls c) (record f { pending_callbacks = rest }) ≡ (false, next)
      → drain calls (suc rounds) f ≡ after_callback c false (drain calls rounds next)
  unfolding drain drain_block
  drain_step calls f next c rest rounds p e = ground (arith, p, e)

  -- While no other thread adds callbacks, the loop returns, even though the callbacks that it runs register
  -- more of them, if every callback has a size
  -- that is more than the sizes of those that it registers together: the sizes of those that wait,
  -- and one round more, are enough. It has then run exactly those that waited and, behind them, those that
  -- were registered by the ones it ran, each once and in the order of their registration; none is left, the flag is
  -- reset, and no second drain was submitted.
  pub drain-all :
      (calls : C → List C) (size : C → ℕ)
      → ((c : C) → total_size size (calls c) < size c)
      → (f : RuntimeFuture V C H) (rounds : ℕ) → IsDraining f
      → total_size size f.pending_callbacks < rounds
      → ((drain calls rounds f).returned ≡ true)
        × ((drain calls rounds f).ran
            ≡ f.pending_callbacks ++ registered_by calls (drain calls rounds f).ran)
        × ((drain calls rounds f).future.pending_callbacks ≡ [])
        × ((drain calls rounds f).future.callback_draining ≡ false)
        × ((drain calls rounds f).submitted ≡ false)
  unfolding drain drain_block registered_by total_size
  drain-all calls size finite f zero d h = absurd (omega (arith, h))
  drain-all calls size finite f (suc rounds) d h = elim (List-cases f.pending_callbacks) [
    | inl none_left ↦ (
      ground (arith, none_left),
      ground (arith, none_left),
      ground (arith, none_left),
      ground (arith, none_left),
      ground (arith, none_left),
    )
    | inr (c, rest, some_left) ↦
        let g = record f { pending_callbacks = rest } in
        let next = record f { pending_callbacks = rest ++ calls c } in
        let still : IsDraining next = record {
          settled = d.settled;
          started = d.started;
          draining = d.draining;
        } in
        let effect : register_all (calls c) g ≡ (false, next) =
          register_all-pending (calls c) g
            (record { settled = d.settled; started = d.started; draining = d.draining }) in
        let less : total_size size next.pending_callbacks < rounds =
          smaller size c rest (calls c) rounds (finite c) (total_size-append size rest (calls c))
            (subst (λ cs. total_size size cs < suc rounds) some_left h) in
        let (over, ran, empty, reset, single) =
          drain-all calls size finite next rounds still less in
        let whole : drain calls (suc rounds) f ≡ after_callback c false (drain calls rounds next) =
          drain_step calls f next c rest rounds some_left effect in
        let joined =
          append_assoc rest (calls c) (registered_by calls (drain calls rounds next).ran) in
        (
          ap (λ (x : Drained V C H). x.returned) whole ∙ over,
          ap (λ (x : Drained V C H). x.ran) whole
              ∙ ap (λ cs. c ∷ cs) (ran ∙ joined)
              ∙ sym (
                  ap (λ cs. cs ++ registered_by calls (drain calls (suc rounds) f).ran) some_left
                  ∙ ap (λ (x : Drained V C H). (c ∷ rest) ++ registered_by calls x.ran) whole),
          ap (λ (x : Drained V C H). x.future.pending_callbacks) whole ∙ empty,
          ap (λ (x : Drained V C H). x.future.callback_draining) whole ∙ reset,
          ap (λ (x : Drained V C H). x.submitted) whole ∙ single,
        )
  ]

  -- Once a future has its outcome, no step takes or changes it.
  pub step-outcome :
      (s t : Shared V C H) (v : V)
      → s ⟶ t
      → s.future.state ≡ FutureState.finished
      → s.future.outcome ≡ some v
      → (t.future.state ≡ FutureState.finished) × (t.future.outcome ≡ some v)
  unfolding bind_callback_submit set_cancel_hook cancel add_done_callback add_internal_done_callback
      invoke_callbacks drain_block set_running settle
  step-outcome s _ v (Machine.binds hook {f} e) d o = ground arith
  step-outcome s _ v (Machine.sets_hook hook {now} {f} e) d o = ground arith
  step-outcome s _ v Machine.cancels d o = ground arith
  step-outcome s _ v (Machine.starts_work {now} {f} e) d o = ground arith
  step-outcome s _ v (Machine.settles w {f} e) d o = ground arith
  step-outcome s _ v (Machine.adds fn) d o = ground arith
  step-outcome s _ v (Machine.adds_internal fn) d o = ground arith
  step-outcome s _ v (Machine.invokes done) d o = ground arith
  step-outcome s _ v (Machine.drains ready) d o = ground arith
