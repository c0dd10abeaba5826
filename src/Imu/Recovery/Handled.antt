-- ===== src/Imu/Recovery/Handled.antt =====
-- The hook answers an event once.
use device_manager.Common.{ℕ, true, [], Option, none, some, ◌≡◌, ◌≢◌, refl, ap, ◌∙◌, ◌≤◌, arith}
use device_manager.Core.Types.{active, HookContext, DeviceEvent}
use device_manager.Imu.Recovery.{hook, answer_event}

hook-active :
    (c : HookContext) (handled : ℕ)
    → c.enabled ≡ true
    → c.state ≡ active
    → hook c handled ≡ answer_event c.latest_event c.latest_event_revision handled
unfolding hook
hook-active c handled e s = ground arith

answer_event-passes :
    (o : Option DeviceEvent) (r handled : ℕ)
    → r ≤ handled
    → answer_event o r handled ≡ ([], handled)
unfolding answer_event
answer_event-passes none r handled le = refl
answer_event-passes (some v) r handled le = ground arith

answer_event-handled :
    (o : Option DeviceEvent) (r handled : ℕ)
    → (answer_event o r handled).0 ≢ []
    → (answer_event o r handled).1 ≡ r
unfolding answer_event
answer_event-handled none r handled h = absurd (h refl)
answer_event-handled (some v) r handled h = ground arith

-- In an enabled active device, when a call of the hook has asked for something, a second call asks
-- for nothing and keeps the handled revision, as long as the revision of the latest event has not
-- grown past that of the first call, whatever the event then is.
pub hook_handled :
    (c later : HookContext) (handled : ℕ)
    → c.enabled ≡ true
    → c.state ≡ active
    → (hook c handled).0 ≢ []
    → later.enabled ≡ true
    → later.state ≡ active
    → later.latest_event_revision ≤ c.latest_event_revision
    → hook later (hook c handled).1 ≡ ([], (hook c handled).1)
hook_handled c later handled e s h f t le =
    let o = c.latest_event in
    let r = c.latest_event_revision in
    let first = hook-active c handled e s in
    let revision : (hook c handled).1 ≡ r =
      ap (λ p. p.1) first ∙ answer_event-handled o r handled (λ z. h (ap (λ p. p.0) first ∙ z)) in
    hook-active later (hook c handled).1 f t
    ∙ answer_event-passes later.latest_event later.latest_event_revision (hook c handled).1
        (omega arith)
