-- ===== src/Core/Execute/Lawful.antt =====
-- `execute` and `finalize` over a lawful runtime: the runtime's invariant is kept, and `finalize`
-- leads to the state finalized.
use device_manager.Common.{
  String, true, false, List, [], ◌∷◌, ◌≡◌, ◌≢◌, refl, sym, ap, subst, ◌∙◌, inl, inr, Bool-cases,
  false≢true, if◌then◌else◌,
}
use device_manager.Core.Types.{
  LifecycleState, unknown, failure, error, ParameterMap, TransitionRequest, TransitionRecord,
  TransitionOutcome, empty_request, state_eq, state_eq_iff,
}
use device_manager.Core.Runtime.{Call, returns, throws, throws_unknown}
use device_manager.Core.Runtime.Dispatch.{LawfulRuntime, Ends}
use device_manager.Core.Device.{Device, query_state, safe_state, or_unknown}
use device_manager.Core.Execute.{
  draft, execute, execute_all, execute_from, finalize, plan, plan_from, planned, publish,
  record_discarded, record_error, attempt, after_request, after_state, request, conclude, normalize,
}

module _ {W : Type 0} (state_of : W → LifecycleState) (Fits : W → Type 0) where
  -- The device has a lawful runtime, whose state satisfies `S`.
  abbrev pub Holds : (LifecycleState → Type 0) → Device W → Type 0
  Holds S d = LawfulRuntime state_of Fits d.runtime × Fits d.world × S (state_of d.world)

  abbrev pub IsHealthy : Device W → Type 0
  IsHealthy = Holds (λ s. Unit)

  abbrev pub IsFinalized : Device W → Type 0
  IsFinalized = Holds (λ s. s ≡ LifecycleState.finalized)

  query : (d : Device W) → IsHealthy d → query_state d ≡ (returns (state_of d.world), d)
  query d (law, fits, _) =
      ap (λ (p : Call LifecycleState × W). (p.0, record d { world = p.1 })) (law.reads d.world fits)

  keeps_invariant :
      (c : Call TransitionOutcome) (w : W) (f t : LifecycleState)
      → Ends state_of Fits f t (c, w)
      → Fits w
  keeps_invariant (returns o) w f t e = e.0
  keeps_invariant (throws m) w f t e = absurd e
  keeps_invariant throws_unknown w f t e = absurd e

  module _ (S : LifecycleState → Type 0) where
    publish-Holds : (rec : TransitionRecord) (d : Device W) → Holds S d → Holds S (publish rec d)
    unfolding publish
    publish-Holds rec d (law, fits, s) =
        let (fits', same) = law.tells_time d.world fits in (law, fits', subst S (sym same) s)

    after_request-Holds :
        (r : TransitionRequest) (c : Call TransitionOutcome) (d : Device W)
        → (from : LifecycleState) → Ends state_of Fits from r.target_state (c, d.world)
        → Holds S d
        → Holds S (after_request r (c, d)).1
    after_request-Holds r (returns o) d from e h =
        subst (λ x. Holds S (after_state r o x).1) (sym (query d (h.0, h.1, tt))) h
    after_request-Holds r (throws m) d from e h = absurd e
    after_request-Holds r throws_unknown d from e h = absurd e

    -- `execute` of a request that is not stale.
    fresh-Holds :
        (r : TransitionRequest) (d : Device W)
        → IsHealthy d
        → S (state_of (request r d).1.world)
        → Holds S (conclude (attempt r d)).1
    unfolding attempt
    fresh-Holds r d (law, fits, _) s =
        let e = law.ends r d.world fits in
        let c = d.runtime.request_transition r d.world in
        let fits' = keeps_invariant c.0 c.1 (state_of d.world) r.target_state e in
        publish-Holds (normalize (attempt r d).0) (attempt r d).1
          (after_request-Holds r c.0 (request r d).1 (state_of d.world) e (law, fits', s))

  pub execute-IsHealthy :
      (r : TransitionRequest) (d : Device W) → IsHealthy d → IsHealthy (execute r d).1
  unfolding execute
  execute-IsHealthy r d h =
      subst (λ x. IsHealthy (execute_from r x).1) (sym (query d h))
        (elim (Bool-cases (state_eq (state_of d.world) r.from_state)) [
          | inl fresh ↦ rw fresh (fresh-Holds (λ s. Unit) r d h tt)
          | inr stale ↦ rw stale (
              publish-Holds (λ s. Unit)
                (draft r failure true (state_of d.world)
                  "discarded because the source state is stale")
                d h)
        ])

  execute-IsFinalized :
      (r : TransitionRequest) (d : Device W)
      → IsHealthy d
      → r.from_state ≡ state_of d.world
      → r.target_state ≡ LifecycleState.finalized
      → state_of d.world ≢ LifecycleState.finalized
      → IsFinalized (execute r d).1
  unfolding execute
  execute-IsFinalized r d h e f n =
      let fresh : state_eq (state_of d.world) r.from_state ≡ true =
        (state_eq_iff (state_of d.world) r.from_state).1 (sym e) in
      subst (λ x. IsFinalized (execute_from r x).1) (sym (query d h))
        (rw fresh (
          fresh-Holds (λ s. s ≡ LifecycleState.finalized) r d h
            (h.0.finalizes r d.world h.1 e f n)))

  pub execute_all-IsHealthy :
      (rs : List TransitionRequest) (d : Device W) → IsHealthy d → IsHealthy (execute_all rs d)
  unfolding execute_all
  execute_all-IsHealthy [] d h = h
  execute_all-IsHealthy (r ∷ rs) d h = elim (Bool-cases (execute r d).0) [
    | inl going ↦ rw going (execute_all-IsHealthy rs (execute r d).1 (execute-IsHealthy r d h))
    | inr ended ↦ rw ended (execute-IsHealthy r d h)
  ]

  -- `safe_state` of a lawful runtime is its state.
  pub finalize-IsFinalized : (d : Device W) → IsHealthy d → IsFinalized (finalize d)
  unfolding finalize safe_state
  finalize-IsFinalized d h =
      let over : Call LifecycleState × Device W → Device W = λ x.
        let s = or_unknown x.0 in
        if state_eq s LifecycleState.finalized
        then x.1
        else (execute
            (record { from_state = s; target_state = LifecycleState.finalized; parameters = [] })
            x.1).1 in
      subst (λ x. IsFinalized (over x)) (sym (query d h))
        (elim (Bool-cases (state_eq (state_of d.world) LifecycleState.finalized)) [
          | inl done ↦ rw done (h.0, h.1, (state_eq_iff _ _).0 done)
          | inr more ↦ rw more (
              execute-IsFinalized _ d h refl refl
                (λ e. false≢true (sym more ∙ (state_eq_iff _ _).1 e)))
        ])

  record_error-IsHealthy : (m : String) (d : Device W) → IsHealthy d → IsHealthy (record_error m d)
  unfolding record_error
  record_error-IsHealthy m d h =
      publish-Holds (λ s. Unit) (draft empty_request error false unknown m) d h

  pub record_discarded-IsHealthy :
      (r : TransitionRequest) (m : String) (d : Device W)
      → IsHealthy d
      → IsHealthy (record_discarded r m d)
  unfolding record_discarded safe_state
  record_discarded-IsHealthy r m d h =
      subst
        (λ (x : Call LifecycleState × Device W).
          IsHealthy (publish (draft r failure true (or_unknown x.0) m) x.1))
        (sym (query d h))
        (publish-Holds (λ s. Unit) (draft r failure true (state_of d.world) m) d h)

  planned-IsHealthy :
      (c : Call (List TransitionRequest)) (d : Device W)
      → IsHealthy d
      → IsHealthy (planned (c, d)).1
  planned-IsHealthy (returns rs) d h = h
  planned-IsHealthy (throws m) d h = record_error-IsHealthy m d h
  planned-IsHealthy throws_unknown d h = record_error-IsHealthy _ d h

  pub plan-IsHealthy :
      (current patch : ParameterMap) (d : Device W)
      → IsHealthy d
      → IsHealthy (plan current patch d).1
  unfolding plan
  plan-IsHealthy current patch d h =
      let w = d.world in
      let c = d.runtime.parameter_transitions (state_of w) current patch w in
      subst (λ x. IsHealthy (plan_from current patch x).1) (sym (query d h))
        (planned-IsHealthy c.0 (record d { world = c.1 })
          (h.0, (h.0.plans (state_of w) current patch w h.1).1, tt))
