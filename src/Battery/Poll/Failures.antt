-- ===== src/Battery/Poll/Failures.antt =====
-- How long a battery that does not answer still counts as connected.
use device_manager.Common.{
  ℕ, zero, suc, ◌+◌, ◌%◌, ◌^◌, ◌<◌, String, Bool, true, false, ◌&&◌, none, ltb, ◌≡◌, refl, sym, ◌∙◌,
  subst, arith, inl, inr, Bool-cases, if-true, if◌then◌else◌,
}
use device_manager.Battery.Registers.{fast_block_a_count}
use device_manager.Battery.Status.{BatteryStatusTransitionTracker, observe_offline}
use device_manager.Battery.Driver.{
  Answer, bytes, no_answer, Transport, FloatOps, TwsBatteryDriver, ensure_connected,
}
use device_manager.Battery.Poll.{
  BatteryPollResult, make_poll_failure_result, fail_poll, poll_once, read_fast_values,
  after_block_a, after_values, after_connect, is_some, fast_block_a_start,
}

observe_offline-online :
    (m : String) (t : BatteryStatusTransitionTracker) → (observe_offline m t).1.online ≡ false
unfolding observe_offline
observe_offline-online m t = elim (Bool-cases t.online) [
  | inl on ↦ ground (arith, on)
  | inr off ↦ ground (arith, off)
]

-- A report is made exactly on the way from online to offline.
observe_offline-reports :
    (m : String) (t : BatteryStatusTransitionTracker) → is_some (observe_offline m t).0 ≡ t.online
unfolding observe_offline
observe_offline-reports m t = elim (Bool-cases t.online) [
  | inl on ↦ ground (arith, on)
  | inr off ↦ ground (arith, off)
]

abbrev pub IsUnanswered : Answer → Type 0
IsUnanswered (no_answer e) = Unit
IsUnanswered (bytes bs) = ⊥

module _ {F W : Type 0} (float : FloatOps F) (transport : Transport W) where
  -- In the worlds `Up` the line is up, and a read is not answered and leads to such a world again.
  pub record IsMute (Up : W → Type 0) : Type 0 where
    pub connected : (w : W) → Up w → transport.is_connected w ≡ true
    pub silent :
        (device address count : ℕ) (w : W)
        → Up w
        → let (r, w') = transport.read_holding_registers device address count w in
          IsUnanswered r × Up w'

  -- `n` polls: how many of them report a failure, and the driver after them.
  unfoldable pub polls : ℕ → TwsBatteryDriver F → W → ℕ × TwsBatteryDriver F × W
  unfolding poll_once
  polls zero d w = (0, d, w)
  polls (suc n) d w =
      let (r, d', w') = poll_once float transport d w in
      let (reports, d'', w'') = polls n d' w' in
      (if r.report_failure_event then reports + 1 else reports, d'', w'')

  -- After `k` failures in a row, and once the battery counts as lost.
  pub record IsFailing (k : ℕ) (d : TwsBatteryDriver F) : Type 0 where
    pub has_transport : d.has_transport ≡ true
    pub connected : d.last_snapshot.connected ≡ true
    pub online : d.status_transition_tracker.online ≡ true
    pub polled : d.has_successful_poll ≡ true
    pub failures : d.consecutive_poll_failures ≡ k

  pub record IsLost (d : TwsBatteryDriver F) : Type 0 where
    pub has_transport : d.has_transport ≡ true
    pub connected : d.last_snapshot.connected ≡ false
    pub online : d.status_transition_tracker.online ≡ false
    pub polled : d.has_successful_poll ≡ true

  -- A poll that is the failure of a read.
  abbrev Fails :
      (W → Type 0) → TwsBatteryDriver F → BatteryPollResult F × TwsBatteryDriver F × W → Type 0
  Fails Up d x = (m : String) × (w : W) × Up w × (x ≡ fail_poll float transport m d w)

  after_values-mute :
      (Up : W → Type 0) (x : Answer × W) (d : TwsBatteryDriver F)
      → IsUnanswered x.0
      → Up x.1
      → Fails Up d (after_values float transport (after_block_a float transport x d) d)
  after_values-mute Up (no_answer e, w) d h up = (e, w, up, refl)
  after_values-mute Up (bytes bs, w) d h up = absurd h

  poll_once-mute :
      (Up : W → Type 0) (d : TwsBatteryDriver F) (w : W)
      → IsMute Up
      → Up w
      → d.has_transport ≡ true
      → Fails Up d (poll_once float transport d w)
  unfolding poll_once ensure_connected read_fast_values
  poll_once-mute Up d w mute u h =
      let (unanswered, u') =
        mute.silent d.config.device_address fast_block_a_start fast_block_a_count w u in
      let up : ensure_connected transport d w ≡ (none, d, w) =
        if-true d.has_transport _ _ h
        ∙ if-true (transport.is_connected w) _ _ (mute.connected w u) in
      subst (λ x. Fails Up d (after_connect float transport x)) (sym up)
        (after_values-mute Up _ d unanswered u')

  -- The test that still holds the battery for connected.
  abbrev is_held : TwsBatteryDriver F → Bool
  is_held d = d.last_snapshot.connected && ltb ((d.consecutive_poll_failures + 1) % 2 ^ 64) 3

  -- The failures, with the reports that they make.
  fail-IsFailing :
      (m : String) (k : ℕ) (d : TwsBatteryDriver F)
      → k < 2
      → IsFailing k d
      → let (r, d') = make_poll_failure_result float transport m d in
        IsFailing (k + 1) d' × (r.report_failure_event ≡ false)
  unfolding make_poll_failure_result
  fail-IsFailing m k d h s =
      let going : is_held d ≡ true = rw (s.connected, s.failures) (ground arith) in
      rw going (
        record {
          has_transport = s.has_transport;
          connected = s.connected;
          online = s.online;
          polled = s.polled;
          failures = rw s.failures (omega arith);
        },
        refl,
      )

  fail-third :
      (m : String) (d : TwsBatteryDriver F)
      → IsFailing 2 d
      → let (r, d') = make_poll_failure_result float transport m d in
        IsLost d' × (r.report_failure_event ≡ true)
  unfolding make_poll_failure_result observe_offline
  fail-third m d s =
      let over : is_held d ≡ false = rw (s.connected, s.failures) refl in
      rw over (
        record {
          has_transport = s.has_transport;
          connected = refl;
          online = observe_offline-online m d.status_transition_tracker;
          polled = s.polled;
        },
        rw (observe_offline-reports m d.status_transition_tracker, s.online) refl,
      )

  fail-IsLost :
      (m : String) (d : TwsBatteryDriver F)
      → IsLost d
      → let (r, d') = make_poll_failure_result float transport m d in
        IsLost d' × (r.report_failure_event ≡ false)
  unfolding make_poll_failure_result observe_offline
  fail-IsLost m d s =
      let over : is_held d ≡ false = rw s.connected refl in
      rw over (
        record {
          has_transport = s.has_transport;
          connected = refl;
          online = observe_offline-online m d.status_transition_tracker;
          polled = s.polled;
        },
        rw (observe_offline-reports m d.status_transition_tracker, s.online, s.polled) refl,
      )

  -- A poll in a given state, with its failure.
  poll-failure :
      (Up : W → Type 0) (d : TwsBatteryDriver F) (w : W)
      (P : BatteryPollResult F × TwsBatteryDriver F × W → Type 0)
      → Fails Up d (poll_once float transport d w)
      → ((m : String) (w' : W) → Up w' → P (fail_poll float transport m d w'))
      → P (poll_once float transport d w)
  poll-failure Up d w P (m, w', u, e) h = subst P (sym e) (h m w' u)

  -- What the polls come to from a lost battery on: nothing is reported any more.
  polls-IsLost :
      (Up : W → Type 0) (n : ℕ) (d : TwsBatteryDriver F) (w : W)
      → IsMute Up
      → Up w
      → IsLost d
      → let (reports, d', w') = polls n d w in (reports ≡ 0) × (d'.last_snapshot.connected ≡ false)
  unfolding polls
  polls-IsLost Up zero d w mute u s = (refl, s.connected)
  polls-IsLost Up (suc n) d w mute u s =
      poll-failure Up d w
        (λ (x : BatteryPollResult F × TwsBatteryDriver F × W).
          let rest = polls n x.1 x.2 in
          ((if x.0.report_failure_event then rest.0 + 1 else rest.0) ≡ 0)
          × (rest.1.last_snapshot.connected ≡ false))
        (poll_once-mute Up d w mute u s.has_transport)
        (λ m w' u'.
          let (lost, quiet) = fail-IsLost m d s in
          let (none_more, gone) = polls-IsLost Up n _ w' mute u' lost in (rw quiet none_more, gone))

  -- `j` more failures are put up with.
  polls-IsFailing :
      (Up : W → Type 0) (n j k : ℕ) (d : TwsBatteryDriver F) (w : W)
      → IsMute Up
      → Up w
      → k + j ≡ 2
      → IsFailing k d
      → let (reports, d', w') = polls n d w in
        (reports ≡ (if ltb n (j + 1) then 0 else 1)) × (d'.last_snapshot.connected ≡ ltb n (j + 1))
  unfolding polls
  polls-IsFailing Up zero j k d w mute u e s = (ground arith, s.connected ∙ ground arith)
  polls-IsFailing Up (suc n) zero k d w mute u e s =
      poll-failure Up d w
        (λ (x : BatteryPollResult F × TwsBatteryDriver F × W).
          let rest = polls n x.1 x.2 in
          ((if x.0.report_failure_event then rest.0 + 1 else rest.0)
            ≡ (if ltb (suc n) (zero + 1) then 0 else 1))
          × (rest.1.last_snapshot.connected ≡ ltb (suc n) (zero + 1)))
        (poll_once-mute Up d w mute u s.has_transport)
        (λ m w' u'.
          let two : IsFailing 2 d = subst (λ i. IsFailing i d) (omega arith) s in
          let (lost, reported) = fail-third m d two in
          let (none_more, gone) = polls-IsLost Up n _ w' mute u' lost in
          (rw (reported, none_more) (ground arith), gone ∙ ground arith))
  polls-IsFailing Up (suc n) (suc j) k d w mute u e s =
      poll-failure Up d w
        (λ (x : BatteryPollResult F × TwsBatteryDriver F × W).
          let rest = polls n x.1 x.2 in
          ((if x.0.report_failure_event then rest.0 + 1 else rest.0)
            ≡ (if ltb (suc n) (suc j + 1) then 0 else 1))
          × (rest.1.last_snapshot.connected ≡ ltb (suc n) (suc j + 1)))
        (poll_once-mute Up d w mute u s.has_transport)
        (λ m w' u'.
          let (failing, quiet) = fail-IsFailing m k d (omega arith) s in
          let (reports, held) = polls-IsFailing Up n j (k + 1) _ w' mute u' (omega arith) failing in
          (rw quiet (reports ∙ ground arith), held ∙ ground arith))

  -- After a successful poll, with the line up and staying up, a battery that answers no read any
  -- more counts as connected for two polls and as disconnected from the third one on, and exactly
  -- one failure is reported, at the third poll.
  pub polls-mute :
      (Up : W → Type 0) (n : ℕ) (d : TwsBatteryDriver F) (w : W)
      → IsMute Up
      → Up w
      → IsFailing 0 d
      → let (reports, d', w') = polls n d w in
        (reports ≡ (if ltb n 3 then 0 else 1)) × (d'.last_snapshot.connected ≡ ltb n 3)
  polls-mute Up n d w mute u s = polls-IsFailing Up n 2 0 d w mute u refl s
