-- ===== src/Drivers/Runtime/Lifecycle.antt =====
-- The runtime's states and its driver's go together, and the runtime is lawful.
use device_manager.Common.{
  ℕ, String, Bool, true, false, Option, none, some, ◌≡◌, ◌≢◌, refl, inl, inr, ◌∙◌, arith,
}
use device_manager.Core.Types.{
  LifecycleState, unconfigured, inactive, active, finalized, ParameterMap, TransitionOutcome,
  DeviceDefinition, state_eq,
}
use device_manager.Core.Types.Paths.{IsStable}
use device_manager.Core.Runtime.{Call, returns, throws, throws_unknown}
use device_manager.Core.Runtime.Dispatch as Dispatch
use device_manager.Drivers.Parameters.{Configured, valid, refused}
use device_manager.Drivers.Runtime.{
  Driver, Texts, DriverRuntime, methods, configure, settle, configure_with, emit_event, materialize,
  dematerialize, activate, deactivate, cleanup, device_runtime,
}

abbrev pub is_none : Option String → Bool
is_none none = true
is_none (some m) = false

-- The flag of the read thread, and whether there is a thread.
abbrev pub Thread : Type 0
Thread = Bool × Bool

abbrev pub off : Thread
off = (false, false)

abbrev pub on : Thread
on = (true, true)

module _ {C D W : Type 0} (ops : Driver C D W) (running : D → Thread) where
  -- `configure` returns, and the port is open if there is no error.
  abbrev pub IsSettled : Call (Option String) × D × W → Type 0
  IsSettled (returns o, d, w) = (ops.is_configured d ≡ is_none o) × (running d ≡ off)
  IsSettled x = ⊥

-- What a runtime relies on in its driver; `running` tells of the read thread.
pub record LawfulDriver {C D W : Type 0} (ops : Driver C D W) (running : D → Thread) : Type 0 where
  pub made : (c : C) → (ops.is_configured (ops.make c) ≡ false) × (running (ops.make c) ≡ off)
  pub started :
      (d : D) (w : W)
      → running d ≡ off
      → ((ops.start d w).0 ≡ returns tt)
        × (ops.is_configured (ops.start d w).1 ≡ ops.is_configured d)
        × (running (ops.start d w).1 ≡ on)
  pub stopped :
      (d : D) (w : W)
      → (ops.is_configured (ops.stop d w).0 ≡ ops.is_configured d)
        × (running (ops.stop d w).0 ≡ off)
  pub cleaned :
      (d : D) (w : W)
      → (ops.is_configured (ops.cleanup d w).0 ≡ false) × (running (ops.cleanup d w).0 ≡ off)
  pub configured : (c : C) (d : D) (w : W) → IsSettled ops running (ops.configure c d w)

abbrev pub state_of : {C D O W : Type 0} → DriverRuntime C D O W → LifecycleState
state_of r = r.state

module _ {C D W : Type 0} (ops : Driver C D W) (running : D → Thread) where
  -- The driver's flags in each state: the port is open from inactive on, and the thread runs in
  -- active alone.
  abbrev pub Fits : LifecycleState → Option D → Type 0
  Fits finalized none = Unit
  Fits unconfigured (some d) = (ops.is_configured d ≡ false) × (running d ≡ off)
  Fits inactive (some d) = (ops.is_configured d ≡ true) × (running d ≡ off)
  Fits active (some d) = (ops.is_configured d ≡ true) × (running d ≡ on)
  Fits _ _ = ⊥

  abbrev pub IsFit : {O : Type 0} → DriverRuntime C D O W → Type 0
  IsFit r = Fits r.state r.driver

  abbrev pub Ends :
      {O : Type 0}
      → LifecycleState
      → LifecycleState
      → Call TransitionOutcome × DriverRuntime C D O W
      → Type 0
  Ends = Dispatch.Ends state_of IsFit

  IsStable-Fits : (s : LifecycleState) (d : Option D) → Fits s d → IsStable s
  IsStable-Fits finalized d h = inr (inr refl)
  IsStable-Fits unconfigured d h = inl (inl refl)
  IsStable-Fits inactive d h = inl (inr refl)
  IsStable-Fits active d h = inr (inl refl)
  IsStable-Fits s none h = absurd h
  IsStable-Fits s (some d) h = absurd h

abbrev with_driver :
    {C D O W : Type 0} → DriverRuntime C D O W → LifecycleState → Option D → DriverRuntime C D O W
with_driver r s d = record r { state = s; driver = d }

module _ {C D O W : Type 0} (ops : Driver C D W) (running : D → Thread)
    (law : LawfulDriver ops running) (texts : Texts) (config_from : ParameterMap → C → Configured C)
    (clock : W → ℕ × W) where
  abbrev End :
      LifecycleState → LifecycleState → Call TransitionOutcome × DriverRuntime C D O W → Type 0
  End = Ends ops running

  materialize-Ends :
      (s : LifecycleState) (d : Option D) (r : DriverRuntime C D O W) (ps : ParameterMap)
      → Fits ops running s d
      → End s unconfigured (materialize ops texts config_from clock ps (with_driver r s d))
  unfolding materialize state_eq
  materialize-Ends finalized none r ps h = (law.made r.config, inl (refl, refl))
  materialize-Ends s (some d) r ps h = (h, inr ((λ e. cc), refl))
  materialize-Ends s none r ps h = ground arith

  dematerialize-Ends :
      (s : LifecycleState) (d : Option D) (r : DriverRuntime C D O W)
      → Fits ops running s d
      → End s finalized (dematerialize ops texts config_from clock (with_driver r s d))
  unfolding dematerialize state_eq
  dematerialize-Ends s none r h = (h, inr ((λ e. cc), refl))
  dematerialize-Ends finalized (some d) r h = absurd h
  dematerialize-Ends unconfigured (some d) r h = (tt, inl (refl, refl))
  dematerialize-Ends inactive (some d) r h = (tt, inl (refl, refl))
  dematerialize-Ends active (some d) r h = (tt, inl (refl, refl))
  dematerialize-Ends s (some d) r h = absurd h

  activate-Ends :
      (s : LifecycleState) (d : Option D) (r : DriverRuntime C D O W)
      → Fits ops running s d
      → End s active (activate ops texts config_from clock (with_driver r s d))
  unfolding activate state_eq
  activate-Ends s none r h = (h, inr ((λ e. cc), refl))
  activate-Ends inactive (some d) r h =
      let (returned, same, runs) = law.started d r.serial h.1 in
      rw (h.0, returned) ((same ∙ h.0, runs), inl (refl, refl))
  activate-Ends unconfigured (some d) r h = (h, inr ((λ e. cc), refl))
  activate-Ends active (some d) r h = (h, inr ((λ e. cc), refl))
  activate-Ends s (some d) r h = absurd h

  deactivate-Ends :
      (s : LifecycleState) (d : Option D) (r : DriverRuntime C D O W)
      → Fits ops running s d
      → End s inactive (deactivate ops texts config_from clock (with_driver r s d))
  unfolding deactivate state_eq
  deactivate-Ends s none r h = (h, inr ((λ e. cc), refl))
  deactivate-Ends active (some d) r h =
      let (same, stops) = law.stopped d r.serial in ((same ∙ h.0, stops), inl (refl, refl))
  deactivate-Ends unconfigured (some d) r h = (h, inr ((λ e. cc), refl))
  deactivate-Ends inactive (some d) r h = (h, inr ((λ e. cc), refl))
  deactivate-Ends s (some d) r h = absurd h

  cleanup-Ends :
      (s : LifecycleState) (d : Option D) (r : DriverRuntime C D O W) (ps : ParameterMap)
      → Fits ops running s d
      → End s unconfigured (cleanup ops texts config_from clock ps (with_driver r s d))
  unfolding cleanup state_eq
  cleanup-Ends s none r ps h = (h, inr ((λ e. cc), refl))
  cleanup-Ends inactive (some d) r ps h = (law.cleaned d r.serial, inl (refl, refl))
  cleanup-Ends unconfigured (some d) r ps h = (h, inr ((λ e. cc), refl))
  cleanup-Ends active (some d) r ps h = (h, inr ((λ e. cc), refl))
  cleanup-Ends s (some d) r ps h = absurd h

  settle-Ends :
      (x : Call (Option String) × D × W) (r : DriverRuntime C D O W)
      → IsSettled ops running x
      → End unconfigured inactive (settle ops texts config_from clock x r)
  unfolding settle emit_event
  settle-Ends (returns none, d, w) r h = (h, inl (refl, refl))
  settle-Ends (returns (some m), d, w) r h = (h, inr ((λ e. cc), refl))
  settle-Ends (throws m, d, w) r h = absurd h
  settle-Ends (throws_unknown, d, w) r h = absurd h

  configure_with-Ends :
      (c : Configured C) (d : D) (r : DriverRuntime C D O W)
      → r.state ≡ unconfigured
      → Fits ops running r.state r.driver
      → End unconfigured inactive (configure_with ops texts config_from clock c d r)
  unfolding configure_with
  configure_with-Ends (refused m) d r s h = (h, inr ((λ e. cc), s))
  configure_with-Ends (valid c) d r s h =
      settle-Ends (ops.configure c d r.serial) _ (law.configured c d r.serial)

  configure-Ends :
      (s : LifecycleState) (d : Option D) (r : DriverRuntime C D O W) (ps : ParameterMap)
      → Fits ops running s d
      → End s inactive (configure ops texts config_from clock ps (with_driver r s d))
  unfolding configure state_eq
  configure-Ends s none r ps h = (h, inr ((λ e. cc), refl))
  configure-Ends unconfigured (some d) r ps h =
      configure_with-Ends _ d (with_driver r unconfigured (some d)) refl h
  configure-Ends inactive (some d) r ps h = (h, inr ((λ e. cc), refl))
  configure-Ends active (some d) r ps h = (h, inr ((λ e. cc), refl))
  configure-Ends s (some d) r ps h = absurd h

  dematerialize-state :
      (s : LifecycleState) (d : Option D) (r : DriverRuntime C D O W)
      → Fits ops running s d
      → s ≢ finalized
      → (dematerialize ops texts config_from clock (with_driver r s d)).1.state ≡ finalized
  unfolding dematerialize state_eq
  dematerialize-state finalized d r h n = absurd (n refl)
  dematerialize-state unconfigured (some d) r h n = refl
  dematerialize-state inactive (some d) r h n = refl
  dematerialize-state active (some d) r h n = refl
  dematerialize-state s none r h n = absurd h
  dematerialize-state s (some d) r h n = absurd h

  pub methods-lawful :
      Dispatch.LawfulMethods {W = DriverRuntime C D O W} state_of
        (IsFit ops running)
        (methods ops texts config_from clock)
  methods-lawful = record {
    stable = λ r h. IsStable-Fits ops running r.state r.driver h;
    materializes = λ ps r h. materialize-Ends r.state r.driver r ps h;
    configures = λ ps r h. configure-Ends r.state r.driver r ps h;
    activates = λ r h. activate-Ends r.state r.driver r h;
    deactivates = λ r h. deactivate-Ends r.state r.driver r h;
    cleans_up = λ ps r h. cleanup-Ends r.state r.driver r ps h;
    dematerializes = λ r h. dematerialize-Ends r.state r.driver r h;
    gives_up = λ r h n. dematerialize-state r.state r.driver r h n;
  }

  -- The runtime of a lawful driver is lawful, whatever `initialize` does.
  pub device_runtime-lawful :
      (initialize : DeviceDefinition → DriverRuntime C D O W → DriverRuntime C D O W)
      → Dispatch.LawfulRuntime {W = DriverRuntime C D O W} state_of
          (IsFit ops running)
          (device_runtime ops texts config_from clock initialize)
  unfolding device_runtime
  device_runtime-lawful initialize =
      let m = methods ops texts config_from clock in
      record {
        reads = λ r h. refl;
        ends = λ q r h.
            Dispatch.request_transition-lawful state_of (IsFit ops running) m methods-lawful q r h;
        finalizes = λ q r h e f n.
            Dispatch.request_transition-finalizes state_of (IsFit ops running) m methods-lawful q r
              h e f n;
        plans = λ s current patch r h. (tt, h);
        tells_time = λ r h. (h, refl);
        handles = λ b r h. (tt, h, refl);
      }
