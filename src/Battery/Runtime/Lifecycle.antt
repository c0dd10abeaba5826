-- ===== src/Battery/Runtime/Lifecycle.antt =====
-- The battery's runtime is lawful: its poll thread and its transport go with its state.
use device_manager.Common.{
  ℕ, String, Bool, true, false, Option, none, some, ◌≡◌, ◌≢◌, refl, sym, subst, if-false, inl, inr,
  not, arith,
}
use device_manager.Core.Types.{
  LifecycleState, unconfigured, inactive, active, finalized, ParameterMap, TransitionOutcome,
  state_eq,
}
use device_manager.Core.Types.Paths.{IsStable}
use device_manager.Core.Runtime.{Call, returns, throws, throws_unknown}
use device_manager.Core.Runtime.Dispatch as Dispatch
use device_manager.Drivers.Parameters.{Configured, valid, refused, succeed_if}
use device_manager.Battery.Driver.{BatteryDriverConfig, Transport, FloatOps, TwsBatteryDriver}
use device_manager.Battery.Runtime.Connected.{HasTransport, configure-HasTransport}
use device_manager.Battery.Session.{
  TwsBatteryRuntime, spawned, start_polling, stop_polling, emit_event,
}
use device_manager.Battery.Runtime.{
  materialize, dematerialize, configure, settle, configure_with, activate, deactivate, cleanup,
  battery_methods, battery_device_runtime,
}

abbrev pub state_of : {F W : Type 0} → TwsBatteryRuntime F W → LifecycleState
state_of r = r.state

-- There is a transport from inactive on, and the poll thread runs in active alone, if there is an
-- output node.
abbrev pub Fits : {F : Type 0} → LifecycleState → Option (TwsBatteryDriver F) → Bool → Bool → Type 0
Fits finalized none polling node = polling ≡ false
Fits unconfigured (some d) polling node = polling ≡ false
Fits inactive (some d) polling node = (d.has_transport ≡ true) × (polling ≡ false)
Fits active (some d) polling node = (d.has_transport ≡ true) × (polling ≡ node)
Fits _ _ polling node = ⊥

abbrev pub IsFit : {F W : Type 0} → TwsBatteryRuntime F W → Type 0
IsFit r = Fits r.state r.driver r.polling r.has_output_node

abbrev End :
    {F W : Type 0}
    → LifecycleState
    → LifecycleState
    → Call TransitionOutcome × TwsBatteryRuntime F W
    → Type 0
End = Dispatch.Ends state_of IsFit

IsStable-Fits :
    {F : Type 0} (s : LifecycleState) (d : Option (TwsBatteryDriver F)) (p n : Bool)
    → Fits s d p n
    → IsStable s
IsStable-Fits finalized d p n h = inr (inr refl)
IsStable-Fits unconfigured d p n h = inl (inl refl)
IsStable-Fits inactive d p n h = inl (inr refl)
IsStable-Fits active d p n h = inr (inl refl)
IsStable-Fits s none p n h = absurd h
IsStable-Fits s (some d) p n h = absurd h

abbrev pub with_driver :
    {F W : Type 0}
    → TwsBatteryRuntime F W
    → LifecycleState
    → Option (TwsBatteryDriver F)
    → TwsBatteryRuntime F W
with_driver r s d = record r { state = s; driver = d }

module _ {F W : Type 0} (float : FloatOps F) (transport : Transport W) (clock : W → ℕ × W)
    (spawn : W → Call (Unit {0}) × W) (ros_ok : W → Bool)
    (willing : (w : W) → (spawn w).0 ≡ returns tt) where
  materialize-Ends :
      (s : LifecycleState) (d : Option (TwsBatteryDriver F)) (r : TwsBatteryRuntime F W)
      (ps : ParameterMap)
      → Fits s d r.polling r.has_output_node
      → End s unconfigured (materialize float transport clock spawn ros_ok ps (with_driver r s d))
  unfolding materialize state_eq
  materialize-Ends finalized none r ps h = (h, inl (refl, refl))
  materialize-Ends s (some d) r ps h = (h, inr ((λ e. cc), refl))
  materialize-Ends s none r ps h = absurd h

  dematerialize-Ends :
      (s : LifecycleState) (d : Option (TwsBatteryDriver F)) (r : TwsBatteryRuntime F W)
      → Fits s d r.polling r.has_output_node
      → End s finalized (dematerialize float transport clock spawn ros_ok (with_driver r s d))
  unfolding dematerialize stop_polling state_eq
  dematerialize-Ends s none r h = (h, inr ((λ e. cc), refl))
  dematerialize-Ends unconfigured (some d) r h = (refl, inl (refl, refl))
  dematerialize-Ends inactive (some d) r h = (refl, inl (refl, refl))
  dematerialize-Ends active (some d) r h = (refl, inl (refl, refl))
  dematerialize-Ends s (some d) r h = absurd h

  spawned-Ends :
      (x : Call (Unit {0}) × W) (d : TwsBatteryDriver F) (r : TwsBatteryRuntime F W)
      → x.0 ≡ returns tt
      → d.has_transport ≡ true
      → let (c, r') =
          spawned x (record r {
            state = active;
            driver = some d;
            has_output_node = true;
            polling = false;
          }) in
        End inactive active (succeed_if c r')
  spawned-Ends (returns _, w) d r h t = ((t, refl), inl (refl, refl))
  spawned-Ends (throws m, w) d r h t = absurd cc
  spawned-Ends (throws_unknown, w) d r h t = absurd cc

  start_polling-Ends :
      (node polling : Bool) (d : TwsBatteryDriver F) (r : TwsBatteryRuntime F W)
      → d.has_transport ≡ true
      → polling ≡ false
      → let (c, r') = start_polling spawn (record r {
        state = active;
        driver = some d;
        has_output_node = node;
        polling = polling;
      }) in
        End inactive active (succeed_if c r')
  unfolding start_polling
  start_polling-Ends node true d r t p = absurd cc
  start_polling-Ends false false d r t p = ((t, refl), inl (refl, refl))
  start_polling-Ends true false d r t p = spawned-Ends (spawn r.can) d r (willing r.can) t

  activate-Ends :
      (s : LifecycleState) (d : Option (TwsBatteryDriver F)) (r : TwsBatteryRuntime F W)
      → Fits s d r.polling r.has_output_node
      → End s active (activate float transport clock spawn ros_ok (with_driver r s d))
  unfolding activate start_polling state_eq
  activate-Ends s none r h = (h, inr ((λ e. cc), refl))
  activate-Ends inactive (some d) r h =
      subst (End inactive active) (sym (if-false (not d.has_transport) _ _ (ground (arith, h.0))))
        (start_polling-Ends r.has_output_node r.polling d r h.0 h.1)
  activate-Ends unconfigured (some d) r h = (h, inr ((λ e. cc), refl))
  activate-Ends active (some d) r h = (h, inr ((λ e. cc), refl))
  activate-Ends s (some d) r h = absurd h

  deactivate-Ends :
      (s : LifecycleState) (d : Option (TwsBatteryDriver F)) (r : TwsBatteryRuntime F W)
      → Fits s d r.polling r.has_output_node
      → End s inactive (deactivate float transport clock spawn ros_ok (with_driver r s d))
  unfolding deactivate stop_polling state_eq
  deactivate-Ends s none r h = (h, inr ((λ e. cc), refl))
  deactivate-Ends active (some d) r h = ((h.0, refl), inl (refl, refl))
  deactivate-Ends unconfigured (some d) r h = (h, inr ((λ e. cc), refl))
  deactivate-Ends inactive (some d) r h = (h, inr ((λ e. cc), refl))
  deactivate-Ends s (some d) r h = absurd h

  cleanup-Ends :
      (s : LifecycleState) (d : Option (TwsBatteryDriver F)) (r : TwsBatteryRuntime F W)
      (ps : ParameterMap)
      → Fits s d r.polling r.has_output_node
      → End s unconfigured (cleanup float transport clock spawn ros_ok ps (with_driver r s d))
  unfolding cleanup state_eq
  cleanup-Ends s none r ps h = (h, inr ((λ e. cc), refl))
  cleanup-Ends inactive (some d) r ps h = (h.1, inl (refl, refl))
  cleanup-Ends unconfigured (some d) r ps h = (h, inr ((λ e. cc), refl))
  cleanup-Ends active (some d) r ps h = (h, inr ((λ e. cc), refl))
  cleanup-Ends s (some d) r ps h = absurd h

  settle-Ends :
      (x : Option String × TwsBatteryDriver F × W) (r : TwsBatteryRuntime F W)
      → HasTransport x
      → r.polling ≡ false
      → End unconfigured inactive (settle float transport clock spawn ros_ok x r)
  unfolding settle emit_event
  settle-Ends (none, d, w) r t h = ((t, h), inl (refl, refl))
  settle-Ends (some m, d, w) r t h = (h, inr ((λ e. cc), refl))

  configure_with-Ends :
      (c : Configured BatteryDriverConfig) (d : TwsBatteryDriver F) (r : TwsBatteryRuntime F W)
      → r.polling ≡ false
      → End unconfigured inactive (
          configure_with float transport clock spawn ros_ok c d
            (with_driver r unconfigured (some d)))
  unfolding configure_with
  configure_with-Ends (refused m) d r h = (h, inr ((λ e. cc), refl))
  configure_with-Ends (valid c) d r h =
      settle-Ends _ _ (configure-HasTransport transport c d r.can) h

  configure-Ends :
      (s : LifecycleState) (d : Option (TwsBatteryDriver F)) (r : TwsBatteryRuntime F W)
      (ps : ParameterMap)
      → Fits s d r.polling r.has_output_node
      → End s inactive (configure float transport clock spawn ros_ok ps (with_driver r s d))
  unfolding configure state_eq
  configure-Ends s none r ps h = (h, inr ((λ e. cc), refl))
  configure-Ends unconfigured (some d) r ps h = configure_with-Ends _ d r h
  configure-Ends inactive (some d) r ps h = (h, inr ((λ e. cc), refl))
  configure-Ends active (some d) r ps h = (h, inr ((λ e. cc), refl))
  configure-Ends s (some d) r ps h = absurd h

  dematerialize-state :
      (s : LifecycleState) (d : Option (TwsBatteryDriver F)) (r : TwsBatteryRuntime F W)
      → Fits s d r.polling r.has_output_node
      → s ≢ finalized
      → (dematerialize float transport clock spawn ros_ok (with_driver r s d)).1.state ≡ finalized
  unfolding dematerialize state_eq
  dematerialize-state finalized d r h n = absurd (n refl)
  dematerialize-state unconfigured (some d) r h n = refl
  dematerialize-state inactive (some d) r h n = refl
  dematerialize-state active (some d) r h n = refl
  dematerialize-state s none r h n = absurd h
  dematerialize-state s (some d) r h n = absurd h

  methods-lawful :
      Dispatch.LawfulMethods {W = TwsBatteryRuntime F W} state_of IsFit
        (battery_methods float transport clock spawn ros_ok)
  methods-lawful = record {
    stable = λ r h. IsStable-Fits r.state r.driver r.polling r.has_output_node h;
    materializes = λ ps r h. materialize-Ends r.state r.driver r ps h;
    configures = λ ps r h. configure-Ends r.state r.driver r ps h;
    activates = λ r h. activate-Ends r.state r.driver r h;
    deactivates = λ r h. deactivate-Ends r.state r.driver r h;
    cleans_up = λ ps r h. cleanup-Ends r.state r.driver r ps h;
    dematerializes = λ r h. dematerialize-Ends r.state r.driver r h;
    gives_up = λ r h n. dematerialize-state r.state r.driver r h n;
  }

  -- If the poll thread can be created and the calls of the transport and of its factory do not
  -- throw, the battery's runtime is lawful: its state can always be read; every request, planning,
  -- clock and handler call returns and keeps the transport and the poll thread in line with the
  -- state (a transport from inactive on, and a poll thread in active alone, if there is an output
  -- node); a transition that succeeds is in its target state, and one that does not is where it
  -- was; and a shutdown from any other state than finalized ends in finalized.
  pub battery_device_runtime-lawful :
      Dispatch.LawfulRuntime {W = TwsBatteryRuntime F W} state_of IsFit
        (battery_device_runtime float transport clock spawn ros_ok)
  unfolding battery_device_runtime
  battery_device_runtime-lawful =
      let m = battery_methods float transport clock spawn ros_ok in
      record {
        reads = λ r h. refl;
        ends = λ q r h. Dispatch.request_transition-lawful state_of IsFit m methods-lawful q r h;
        finalizes = λ q r h e f n.
            Dispatch.request_transition-finalizes state_of IsFit m methods-lawful q r h e f n;
        plans = λ s current patch r h. (tt, h);
        tells_time = λ r h. (h, refl);
        handles = λ b r h. (tt, h, refl);
      }
