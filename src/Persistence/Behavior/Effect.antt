-- ===== src/Persistence/Behavior/Effect.antt =====
-- movie/persistence/effect.py, and what an application gives to movie/persistence/behavior.py.
use movie.Common.{ℕ, Bool, true, false, List, [], ◌∷◌, ◌++◌, Option, none, some}
use movie.Remoting.Text.Utf8.{Text, Bytes}

-- `_EffectKind`, with the state and the operation of the kinds that have them
pub data EffectKind (S : Type 0) : Type 0 where
  none_kind : EffectKind S
  persist_kind : S → ℕ → EffectKind S
  delete_kind : ℕ → EffectKind S

pub record DurableEffect (S K : Type 0) : Type 0 where
  pub kind : EffectKind S
  pub callbacks : List K
  pub stop : Bool

module _ {S K : Type 0} where
  abbrev pub none_effect : DurableEffect S K
  none_effect = record { kind = none_kind; callbacks = []; stop = false }

  abbrev pub persist_effect : S → ℕ → DurableEffect S K
  persist_effect state operation_id = record {
    kind = persist_kind state operation_id;
    callbacks = [];
    stop = false;
  }

  abbrev pub delete_effect : ℕ → DurableEffect S K
  delete_effect operation_id = record {
    kind = delete_kind operation_id;
    callbacks = [];
    stop = false;
  }

  abbrev pub then_run : K → DurableEffect S K → DurableEffect S K
  then_run callback effect = record effect { callbacks = effect.callbacks ++ (callback ∷ []) }

  abbrev pub then_stop : DurableEffect S K → DurableEffect S K
  then_stop effect = record effect { stop = true }

-- The codec and the subclass. `none` and false stand for an exception.
pub record Application (S C K : Type 0) : Type 0 where
  pub encode : S → Option (Text × Bytes)
  pub decode : Text × Bytes → Option S
  pub empty_state : S
  pub handle_command : S → C → Option (DurableEffect S K)
  pub on_recovery_completed : S → ℕ → Bool
  pub callback : K → S → Bool

-- `then_option x f`: what follows a call that returns.
infixl 5 ◌>>?◌
abbrev pub ◌>>?◌ : {A B : Type 0} → Option A → (A → Option B) → Option B
none >>? f = none
some a >>? f = f a

module _ {S C K : Type 0} where
  -- `_copy_state`
  unfoldable pub copy_state : Application S C K → S → Option S
  copy_state app state = app.encode state >>? λ (e : Text × Bytes). app.decode e
