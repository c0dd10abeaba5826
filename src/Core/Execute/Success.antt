-- ===== src/Core/Execute/Success.antt =====
-- When `execute` succeeds, and that nothing runs for a stale request.
use device_manager.Common.{true, false, ◌≡◌, refl, ◌↔◌, inl, inr, arith, Bool-cases, ap, ◌∙◌}
use device_manager.Core.Types.{
  LifecycleState, success, TransitionRequest, TransitionOutcome, state_eq, state_eq_iff,
}
use device_manager.Core.Runtime.{Call, returns, throws, throws_unknown}
use device_manager.Core.Device.{Device, query_state}
use device_manager.Core.Execute.{
  draft, execute, execute_from, attempt, after_request, after_state, request, conclude, normalize,
}

module _ {W : Type 0} (r : TransitionRequest) (d : Device W) where
  -- The device after the state query, and after the request.
  abbrev pub queried : Device W
  queried = (query_state d).1

  abbrev pub requested : Device W
  requested = (request r queried).1

  -- The runtime was in the source state, reported a success, and was then in the target state.
  pub record Carried : Type 0 where
    pub outcome : TransitionOutcome
    pub from_source : (query_state d).0 ≡ returns r.from_state
    pub reported : (request r queried).0 ≡ returns outcome
    pub succeeded : outcome.result ≡ success
    pub at_target : (query_state requested).0 ≡ returns r.target_state

  conclude-facts :
      (o : TransitionOutcome) (t : LifecycleState) (d' : Device W)
      → ((conclude (draft r o.result false t o.message, d')).0 ≡ true)
        ↔ ((o.result ≡ success) × (t ≡ r.target_state))
  unfolding normalize
  conclude-facts o t d' = ground (arith, state_eq_iff t r.target_state)

  attempt-draft :
      (o : TransitionOutcome) (t : LifecycleState)
      → (request r queried).0 ≡ returns o
      → (query_state requested).0 ≡ returns t
      → (attempt r queried).0 ≡ draft r o.result false t o.message
  unfolding attempt
  attempt-draft o t q u = rw (q, after_request) (rw (u, after_state))

  execute-facts :
      (s : LifecycleState) (o : TransitionOutcome) (t : LifecycleState)
      → (query_state d).0 ≡ returns s
      → (request r queried).0 ≡ returns o
      → (query_state requested).0 ≡ returns t
      → ((execute r d).0 ≡ true)
        ↔ ((s ≡ r.from_state) × (o.result ≡ success) × (t ≡ r.target_state))
  unfolding execute
  execute-facts s o t p q u = elim (Bool-cases (state_eq s r.from_state)) [
    | inl fresh ↦
        rw (p, execute_from, fresh, attempt-draft o t q u)
          (ground (arith, state_eq_iff s r.from_state, conclude-facts o t requested))
    | inr stale ↦ rw (p, execute_from, stale) (ground (arith, state_eq_iff s r.from_state))
  ]

  execute-refuted :
      (a : Call LifecycleState) (b : Call TransitionOutcome) (c : Call LifecycleState)
      → (query_state d).0 ≡ a
      → (request r queried).0 ≡ b
      → (query_state requested).0 ≡ c
      → (execute r d).0 ≡ true
      → Carried
  execute-refuted (returns s) (returns o) (returns t) p q u h =
      let (e, f, g) = (execute-facts s o t p q u).0 h in
      record {
        outcome = o;
        from_source = p ∙ ap returns e;
        reported = q;
        succeeded = f;
        at_target = u ∙ ap returns g;
      }
  execute-refuted (returns s) (returns o) (throws m) p q u h =
      absurd (unfold execute in ground arith)
  execute-refuted (returns s) (returns o) throws_unknown p q u h =
      absurd (unfold execute in ground arith)
  execute-refuted (returns s) (throws m) c p q u h = absurd (unfold execute in ground arith)
  execute-refuted (returns s) throws_unknown c p q u h = absurd (unfold execute in ground arith)
  execute-refuted (throws m) b c p q u h = absurd (unfold execute in ground arith)
  execute-refuted throws_unknown b c p q u h = absurd (unfold execute in ground arith)

  -- `execute` returns true exactly when the runtime was in the request's source state, the request
  -- returned a success, and the state read after it is the target state.
  pub execute-true_iff : ((execute r d).0 ≡ true) ↔ Carried
  execute-true_iff = (
    (λ h. execute-refuted _ _ _ refl refl refl h),
    (λ c.
        (execute-facts r.from_state c.outcome r.target_state c.from_source c.reported c.at_target).1
          (refl, c.succeeded, refl)),
  )
