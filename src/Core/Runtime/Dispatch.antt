-- ===== src/Core/Runtime/Dispatch.antt =====
-- What a runtime built on `DeviceRuntimeBase` promises its device, and that the dispatch of the
-- requests keeps the promise if the lifecycle methods do.
use device_manager.Common.{
  ◌≡◌, ◌≢◌, refl, sym, subst, ap, ◌∙◌, ◌⊎◌, inl, inr, Bool, true, false, ◌&&◌, ◌||◌, arith,
  if◌then◌else◌,
}
use device_manager.Core.Types.{
  LifecycleState, unconfigured, inactive, active, finalized, success, TransitionRequest,
  ParameterMap, TransitionOutcome, state_eq, state_eq_iff,
}
use device_manager.Core.Types.Paths.{IsStable}
use device_manager.Core.Runtime.{
  Call, returns, Runtime, LifecycleMethods, request_transition, goes, unsupported,
}

goes-target :
    (q : TransitionRequest) (f t : LifecycleState) → goes q f t ≡ true → t ≡ q.target_state
goes-target q f t e = sym ((state_eq_iff q.target_state t).0 (ground arith))

shutdown-target :
    (q : TransitionRequest) (b : Bool)
    → (state_eq q.target_state finalized && b) ≡ true
    → finalized ≡ q.target_state
shutdown-target q b e = sym ((state_eq_iff q.target_state finalized).0 (ground arith))

abbrev pub DoesReturn : {A : Type 0} → Call A → Type 0
DoesReturn (returns a) = Unit
DoesReturn _ = ⊥

-- `state_of` reads the state off the world, and `Fits` is the runtime's own invariant.
module _ {W : Type 0} (state_of : W → LifecycleState) (Fits : W → Type 0) where
  -- A transition succeeds in the target state or leaves the state, and no method throws.
  abbrev pub Ends : LifecycleState → LifecycleState → Call TransitionOutcome × W → Type 0
  Ends from target (returns o, w) =
      Fits w
      × (((o.result ≡ success) × (state_of w ≡ target))
          ⊎ ((o.result ≢ success) × (state_of w ≡ from)))
  Ends from target (_, w) = ⊥

  pub record LawfulMethods (m : LifecycleMethods W) : Type 0 where
    pub stable : (w : W) → Fits w → IsStable (state_of w)
    pub materializes :
        (ps : ParameterMap) (w : W) → Fits w → Ends (state_of w) unconfigured (m.materialize ps w)
    pub configures :
        (ps : ParameterMap) (w : W) → Fits w → Ends (state_of w) inactive (m.configure ps w)
    pub activates : (w : W) → Fits w → Ends (state_of w) active (m.activate w)
    pub deactivates : (w : W) → Fits w → Ends (state_of w) inactive (m.deactivate w)
    pub cleans_up :
        (ps : ParameterMap) (w : W) → Fits w → Ends (state_of w) unconfigured (m.cleanup ps w)
    pub dematerializes : (w : W) → Fits w → Ends (state_of w) finalized (m.dematerialize w)
    pub gives_up :
        (w : W) → Fits w → state_of w ≢ finalized → state_of (m.dematerialize w).1 ≡ finalized

  -- What the device sees of the runtime.
  pub record LawfulRuntime (r : Runtime W) : Type 0 where
    pub reads : (w : W) → Fits w → r.state w ≡ (returns (state_of w), w)
    pub ends :
        (q : TransitionRequest) (w : W)
        → Fits w
        → Ends (state_of w) q.target_state (r.request_transition q w)
    pub finalizes :
        (q : TransitionRequest) (w : W)
        → Fits w
        → q.from_state ≡ state_of w
        → q.target_state ≡ finalized
        → state_of w ≢ finalized
        → state_of (r.request_transition q w).1 ≡ finalized
    pub plans :
        (s : LifecycleState) (current patch : ParameterMap) (w : W)
        → Fits w
        → let x = r.parameter_transitions s current patch w in DoesReturn x.0 × Fits x.1
    pub tells_time : (w : W) → Fits w → Fits (r.now w).1 × (state_of (r.now w).1 ≡ state_of w)
    pub handles :
        (b : Bool) (w : W)
        → Fits w
        → let x = r.set_event_handler b w in DoesReturn x.0 × Fits x.1 × (state_of x.1 ≡ state_of w)

  branch-Ends :
      (s t u : LifecycleState) (b : Bool) (x y : Call TransitionOutcome × W)
      → (b ≡ true → u ≡ t)
      → Ends s u x
      → Ends s t y
      → Ends s t (if b then x else y)
  branch-Ends s t u true x y f h k = subst (λ v. Ends s v x) (f refl) h
  branch-Ends s t u false x y f h k = k

  module _ (m : LifecycleMethods W) (law : LawfulMethods m) (q : TransitionRequest) (w : W) where
    -- A request to lawful methods ends in its target state with a success, or in the old state.
    pub request_transition-lawful :
        Fits w → Ends (state_of w) q.target_state (request_transition m q w)
    unfolding request_transition
    request_transition-lawful h =
        let s = state_of w in
        let t = q.target_state in
        let ps = q.parameters in
        let step : (f u : LifecycleState) (x y : Call TransitionOutcome × W)
            → Ends s u x
            → Ends s t y
            → Ends s t (if goes q f u then x else y) =
          λ f u x y. branch-Ends s t u (goes q f u) x y (goes-target q f u) in
        let stops =
          state_eq q.from_state unconfigured
          || state_eq q.from_state inactive
          || state_eq q.from_state active in
        let x0 = m.materialize ps w in
        let x1 = m.configure ps w in
        let x2 = m.activate w in
        let x3 = m.deactivate w in
        let x4 = m.cleanup ps w in
        let x5 = m.dematerialize w in
        let y5 = unsupported "unsupported lifecycle transition" w in
        let y4 = if state_eq t finalized && stops then x5 else y5 in
        let y3 = if goes q inactive unconfigured then x4 else y4 in
        let y2 = if goes q active inactive then x3 else y3 in
        let y1 = if goes q inactive active then x2 else y2 in
        let y0 = if goes q unconfigured inactive then x1 else y1 in
        let unsupported-Ends : Ends s t y5 = (h, inr ((λ e. cc), refl)) in
        step finalized unconfigured x0 y0 (law.materializes ps w h) (
          step unconfigured inactive x1 y1 (law.configures ps w h) (
            step inactive active x2 y2 (law.activates w h) (
              step active inactive x3 y3 (law.deactivates w h) (
                step inactive unconfigured x4 y4 (law.cleans_up ps w h) (
                  branch-Ends s t finalized (state_eq t finalized && stops) x5 y5
                    (shutdown-target q stops) (law.dematerializes w h) unsupported-Ends)))))

    request_shutdown :
        (s t : LifecycleState)
        → q.from_state ≡ s
        → q.target_state ≡ t
        → t ≡ finalized
        → s ≢ finalized
        → IsStable s
        → request_transition m q w ≡ m.dematerialize w
    unfolding request_transition state_eq
    request_shutdown s t e f g h (inl (inl i)) = rw (e, f, g, i)
    request_shutdown s t e f g h (inl (inr i)) = rw (e, f, g, i)
    request_shutdown s t e f g h (inr (inl i)) = rw (e, f, g, i)
    request_shutdown s t e f g h (inr (inr i)) = absurd (h i)

    pub request_transition-finalizes :
        Fits w
        → q.from_state ≡ state_of w
        → q.target_state ≡ finalized
        → state_of w ≢ finalized
        → state_of (request_transition m q w).1 ≡ finalized
    request_transition-finalizes h e f n =
        ap (λ x. state_of x.1) (request_shutdown (state_of w) finalized e f refl n (law.stable w h))
        ∙ law.gives_up w h n
