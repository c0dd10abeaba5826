-- ===== src/Battery/Runtime/Polled.antt =====
-- Polling leaves the transport, the poll thread and the state of the battery's runtime in place.
use device_manager.Common.{
  ℕ, String, Bool, true, not, List, [], ◌∷◌, Option, none, some, ◌≡◌, refl, sym, subst, ◌∙◌,
  both_branches, if-true,
}
use device_manager.Core.Types.{LifecycleState, unconfigured, inactive, active, state_eq}
use device_manager.Battery.Driver.{
  Transport, FloatOps, TwsBatteryDriver, ensure_connected, connect_transport, connected_with,
}
use device_manager.Battery.Poll.{
  BatteryPollResult, Reading, read_value, read_error, make_poll_failure_result, accept_values,
  fail_poll, after_values, after_connect,
}
use device_manager.Battery.Status.{BatteryStatusLogRecord}
use device_manager.Battery.Registers.{BatteryFastRegisterValues}
use device_manager.Battery.Poll as Poll
use device_manager.Battery.Session.{TwsBatteryRuntime, emit_event}
use device_manager.Battery.Watch.{announce, report, keep_result, poll_once}
use device_manager.Battery.Runtime.Lifecycle.{Fits, IsFit, with_driver}

module _ {F W : Type 0} (float : FloatOps F) (transport : Transport W) (clock : W → ℕ × W) where
  connected_with-has_transport :
      (o : Option String) (w : W) (d : TwsBatteryDriver F)
      → (connected_with transport (o, w) d).1.has_transport ≡ d.has_transport
  connected_with-has_transport none w d = refl
  connected_with-has_transport (some e) w d = refl

  connect_transport-has_transport :
      (d : TwsBatteryDriver F) (w : W)
      → (connect_transport transport d w).1.has_transport ≡ d.has_transport
  connect_transport-has_transport d w =
      both_branches
        (λ (x : Option String × TwsBatteryDriver F × W). x.1.has_transport ≡ d.has_transport)
        (transport.is_connected w) _ _ refl (connected_with-has_transport _ _ d)

  ensure_connected-has_transport :
      (d : TwsBatteryDriver F) (w : W)
      → d.has_transport ≡ true
      → (ensure_connected transport d w).1.has_transport ≡ true
  unfolding ensure_connected
  ensure_connected-has_transport d w h =
      subst (λ (x : Option String × TwsBatteryDriver F × W). x.1.has_transport ≡ true)
        (sym (if-true d.has_transport _ _ h)) (connect_transport-has_transport d w ∙ h)

  fail_poll-has_transport :
      (m : String) (d : TwsBatteryDriver F) (w : W)
      → (fail_poll float transport m d w).1.has_transport ≡ d.has_transport
  unfolding make_poll_failure_result
  fail_poll-has_transport m d w =
      both_branches
        (λ (x : BatteryPollResult F × TwsBatteryDriver F). x.1.has_transport ≡ d.has_transport) _ _
        _ refl refl

  after_values-has_transport :
      (x : Reading BatteryFastRegisterValues) (w : W) (d : TwsBatteryDriver F)
      → (after_values float transport (x, w) d).1.has_transport ≡ d.has_transport
  unfolding accept_values
  after_values-has_transport (read_error e) w d = fail_poll-has_transport e d w
  after_values-has_transport (read_value v) w d = refl

  after_connect-has_transport :
      (o : Option String) (d : TwsBatteryDriver F) (w : W)
      → (after_connect float transport (o, d, w)).1.has_transport ≡ d.has_transport
  after_connect-has_transport (some e) d w = fail_poll-has_transport e d w
  after_connect-has_transport none d w = after_values-has_transport _ _ d

  poll_once-has_transport :
      (d : TwsBatteryDriver F) (w : W)
      → d.has_transport ≡ true
      → (Poll.poll_once float transport d w).1.has_transport ≡ true
  unfolding Poll.poll_once
  poll_once-has_transport d w h =
      let (e, d', w') = ensure_connected transport d w in
      after_connect-has_transport e d' w' ∙ ensure_connected-has_transport d w h

  abbrev Keeps : LifecycleState → TwsBatteryRuntime F W → Type 0
  Keeps s r = IsFit r × (r.state ≡ s)

  announce-Keeps :
      (logs : List BatteryStatusLogRecord) (s : LifecycleState) (r : TwsBatteryRuntime F W)
      → Keeps s r
      → Keeps s (announce float transport clock logs r)
  unfolding emit_event
  announce-Keeps [] s r h = h
  announce-Keeps (l ∷ ls) s r h = h

  report-Keeps :
      (result : BatteryPollResult F) (s : LifecycleState) (r : TwsBatteryRuntime F W)
      → Keeps s r
      → Keeps s (report float transport clock result r).1
  unfolding report emit_event
  report-Keeps result s r h =
      both_branches (λ (x : Bool × TwsBatteryRuntime F W). Keeps s x.1) (not result.ok) _ _
        (both_branches (Keeps s) result.report_failure_event _ _ h h)
        (announce-Keeps result.log_records s r h)

  poll_once-Fits :
      (s : LifecycleState) (d : Option (TwsBatteryDriver F)) (r : TwsBatteryRuntime F W)
      → Fits s d r.polling r.has_output_node
      → Keeps s (poll_once float transport clock (with_driver r s d)).1
  unfolding poll_once state_eq
  poll_once-Fits s none r h = (h, refl)
  poll_once-Fits active (some d) r h =
      let polled = Poll.poll_once float transport d r.can in
      report-Keeps polled.0 active
        (keep_result float transport clock polled (with_driver r active (some d)))
        ((poll_once-has_transport d r.can h.0, h.1), refl)
  poll_once-Fits unconfigured (some d) r h = (h, refl)
  poll_once-Fits inactive (some d) r h = (h, refl)
  poll_once-Fits s (some d) r h = absurd h

  -- A poll of a runtime that fits its state leaves it in that state, and it still fits.
  pub poll_once-Keeps :
      (r : TwsBatteryRuntime F W) → IsFit r → Keeps r.state (poll_once float transport clock r).1
  poll_once-Keeps r h = poll_once-Fits r.state r.driver r h
