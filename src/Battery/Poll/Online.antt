-- ===== src/Battery/Poll/Online.antt =====
-- The battery counts as connected only while its tracker is online and fewer than three polls in a
-- row have failed.
use device_manager.Common.{
  ℕ, ◌+◌, ◌%◌, ◌^◌, ◌<◌, String, true, false≢true, ◌&&◌, Option, none, some, ltb, ◌≡◌, refl, arith,
  inl, inr, Bool-cases, both_branches,
}
use device_manager.Battery.Registers.{BatteryFastRegisterValues}
use device_manager.Battery.Status.{BatteryStatusTransitionTracker, observe_online}
use device_manager.Battery.Driver.{
  BatteryDriverConfig, Transport, FloatOps, TwsBatteryDriver, ensure_connected, cleanup, configure,
  connected_with, connect_transport,
}
use device_manager.Battery.Poll.{
  BatteryPollResult, make_poll_failure_result, accept_values, fail_poll, after_values,
  after_connect, poll_once, read_fast_values, Reading, read_value, read_error,
  consecutive_poll_failures_to_offline,
}

observe_online-online :
    (s : ℕ) (t : BatteryStatusTransitionTracker) → (observe_online s t).1.online ≡ true
unfolding observe_online
observe_online-online s t = elim (Bool-cases t.online) [
  | inl on ↦ ground (arith, on)
  | inr off ↦ ground (arith, off)
]

module _ {F : Type 0} where
  abbrev pub IsConsistent : TwsBatteryDriver F → Type 0
  IsConsistent d =
      d.last_snapshot.connected ≡ true
      → (d.status_transition_tracker.online ≡ true)
        × (d.consecutive_poll_failures < consecutive_poll_failures_to_offline)

  -- A poll's result says what the driver keeps.
  abbrev pub Agrees : {W : Type 0} → BatteryPollResult F × TwsBatteryDriver F × W → Type 0
  Agrees (r, d, w) = IsConsistent d × (r.snapshot.connected ≡ d.last_snapshot.connected)

  module _ {W : Type 0} (transport : Transport W) where
    connected_with-IsConsistent :
        (o : Option String) (w : W) (d : TwsBatteryDriver F)
        → IsConsistent d
        → IsConsistent (connected_with transport (o, w) d).1
    connected_with-IsConsistent none w d h = h
    connected_with-IsConsistent (some e) w d h = λ z. absurd (false≢true z)

    connect_transport-IsConsistent :
        (d : TwsBatteryDriver F) (w : W)
        → IsConsistent d
        → IsConsistent (connect_transport transport d w).1
    connect_transport-IsConsistent d w h = elim (Bool-cases (transport.is_connected w)) [
      | inl on ↦ rw on h
      | inr off ↦ rw off (connected_with-IsConsistent _ _ d h)
    ]

    ensure_connected-IsConsistent :
        (d : TwsBatteryDriver F) (w : W)
        → IsConsistent d
        → IsConsistent (ensure_connected transport d w).1
    unfolding ensure_connected
    ensure_connected-IsConsistent d w h =
        let P = λ (x : Option String × TwsBatteryDriver F × W). IsConsistent x.1 in
        let made = transport.create d.config w in
        both_branches P d.has_transport (connect_transport transport d w) _
          (connect_transport-IsConsistent d w h)
          (both_branches P made.0
            (connect_transport transport (record d { has_transport = true }) made.1) _
            (connect_transport-IsConsistent (record d { has_transport = true }) made.1 h)
            (λ z. absurd (false≢true z)))

    cleanup-IsConsistent :
        (d : TwsBatteryDriver F) (w : W) → IsConsistent d → IsConsistent (cleanup transport d w).0
    unfolding cleanup
    cleanup-IsConsistent d w h = λ z. ((h z).0, omega arith)

    configure-IsConsistent :
        (c : BatteryDriverConfig) (d : TwsBatteryDriver F) (w : W)
        → IsConsistent d
        → IsConsistent (configure transport c d w).1
    unfolding configure cleanup
    configure-IsConsistent c d w h =
        let P = λ (x : Option String × TwsBatteryDriver F × W). IsConsistent x.1 in
        let (d', w') = cleanup transport d w in
        let (made, w'') = transport.create c w' in
        both_branches P made _ _
          (ensure_connected-IsConsistent
            (record d' {
              config = c;
              last_snapshot = record (d'.last_snapshot) { device_address = c.device_address };
              has_transport = made;
            })
            w'' (cleanup-IsConsistent d w h))
          (λ z. absurd (false≢true z))

    module _ (float : FloatOps F) where
      fail_poll-Agrees :
          (m : String) (d : TwsBatteryDriver F) (w : W)
          → IsConsistent d
          → Agrees (fail_poll float transport m d w)
      unfolding make_poll_failure_result
      fail_poll-Agrees m d w h =
          let failures = (d.consecutive_poll_failures + 1) % 2 ^ 64 in
          let going =
            d.last_snapshot.connected && ltb failures consecutive_poll_failures_to_offline in
          elim (Bool-cases going) [
            | inl on ↦ rw on ((λ z. ((h z).0, ground (arith, on))), refl)
            | inr off ↦ rw off ((λ z. absurd (false≢true z)), refl)
          ]

      after_values-Agrees :
          (v : Reading BatteryFastRegisterValues) (d : TwsBatteryDriver F) (w : W)
          → IsConsistent d
          → Agrees (after_values float transport (v, w) d)
      unfolding accept_values
      after_values-Agrees (read_error e) d w h = fail_poll-Agrees e d w h
      after_values-Agrees (read_value v) d w h =
          ((λ z. (observe_online-online _ d.status_transition_tracker, omega arith)), refl)

      after_connect-Agrees :
          (o : Option String) (d : TwsBatteryDriver F) (w : W)
          → IsConsistent d
          → Agrees (after_connect float transport (o, d, w))
      after_connect-Agrees (some e) d w h = fail_poll-Agrees e d w h
      after_connect-Agrees none d w h =
          after_values-Agrees (read_fast_values float transport d w).0 d
            (read_fast_values float transport d w).1 h

      -- Configuring, cleaning up and polling keep it, whatever the transport answers: a battery
      -- that counts as connected has a tracker that is online, and fewer than three polls in a row
      -- have failed. A poll's result says connected exactly when the driver's last snapshot does.
      pub driver-IsConsistent :
          (c : BatteryDriverConfig) (d : TwsBatteryDriver F) (w : W)
          → IsConsistent d
          → IsConsistent (configure transport c d w).1
            × IsConsistent (cleanup transport d w).0
            × Agrees (poll_once float transport d w)
      unfolding poll_once
      driver-IsConsistent c d w h =
          let (o, d', w') = ensure_connected transport d w in
          (
            configure-IsConsistent c d w h,
            cleanup-IsConsistent d w h,
            after_connect-Agrees o d' w' (ensure_connected-IsConsistent d w h),
          )
