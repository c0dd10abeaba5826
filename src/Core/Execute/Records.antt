-- ===== src/Core/Execute/Records.antt =====
-- What `execute` reports, and what it leaves behind in `last_transition`.
use device_manager.Common.{
  String, Bool, true, false, some, ◌≡◌, refl, subst, ◌↔◌, inl, inr, arith, Bool-cases,
}
use device_manager.Core.Types.{
  LifecycleState, success, error, TransitionRequest, TransitionRecord, state_eq, state_eq_iff,
}
use device_manager.Core.Runtime.{Call, returns, throws, throws_unknown}
use device_manager.Core.Device.{Device, query_state, safe_state, read_clock}
use device_manager.Core.Execute.{
  draft, execute, execute_from, attempt, conclude, normalize, publish, reached,
}

-- The record `rec` of the request `r` is published in `d`.
abbrev pub Published : {W : Type 0} → TransitionRequest → Device W → TransitionRecord → Type 0
Published r d rec = (d.last_transition ≡ some rec) × (rec.request ≡ r)

-- A success is reported only with the target state reached.
abbrev pub IsHonest : TransitionRecord → Type 0
IsHonest rec = rec.result ≡ success → rec.actual_state ≡ rec.request.target_state

-- What a caller of `execute` learns: the Boolean says whether the published record is a success.
abbrev pub Reports : {W : Type 0} → TransitionRequest → Bool × Device W → Type 0
Reports r (b, d) =
    (rec : TransitionRecord) × Published r d rec
    × IsHonest rec
    × ((b ≡ true) ↔ (rec.result ≡ success))

normalize-request : (rec : TransitionRecord) → (normalize rec).request ≡ rec.request
unfolding normalize
normalize-request rec = ground arith

normalize-IsHonest : (rec : TransitionRecord) → IsHonest (normalize rec)
unfolding normalize
normalize-IsHonest rec h = ground (arith, state_eq_iff rec.actual_state rec.request.target_state)

reached_iff :
    (rec : TransitionRecord) → IsHonest rec → (reached rec ≡ true) ↔ (rec.result ≡ success)
reached_iff rec h = ground (arith, state_eq_iff rec.actual_state rec.request.target_state)

module _ {W : Type 0} where
  abbrev stamped : TransitionRecord → Device W → TransitionRecord
  stamped rec d = record rec { timestamp = (read_clock d).0 }

  conclude-Reports :
      (rec : TransitionRecord) (d : Device W) → Reports rec.request (conclude (rec, d))
  unfolding publish
  conclude-Reports rec d = (
    stamped (normalize rec) d,
    (refl, normalize-request rec),
    normalize-IsHonest rec,
    reached_iff (normalize rec) (normalize-IsHonest rec),
  )

  attempt-request : (r : TransitionRequest) (d : Device W) → (attempt r d).0.request ≡ r
  unfolding attempt safe_state
  attempt-request r d = ground arith

  error-Reports :
      (r : TransitionRequest) (m : String) (d : Device W)
      → Reports r (false, publish (draft r error false LifecycleState.unknown m) d)
  unfolding publish
  error-Reports r m d = (_, (refl, refl), (λ h. cc), ((λ h. cc), (λ h. cc)))

  execute_from-Reports :
      (r : TransitionRequest) (c : Call LifecycleState) (d : Device W)
      → Reports r (execute_from r (c, d))
  execute_from-Reports r (returns s) d = elim (Bool-cases (state_eq s r.from_state)) [
    | inl fresh ↦ rw fresh (
        subst (λ q. Reports q (conclude (attempt r d))) (attempt-request r d)
          (conclude-Reports (attempt r d).0 (attempt r d).1))
    | inr stale ↦ rw stale (conclude-Reports _ d)
  ]
  execute_from-Reports r (throws m) d = error-Reports r m d
  execute_from-Reports r throws_unknown d = error-Reports r _ d

  -- Every execution, whatever the runtime does, publishes one record of the request. The record
  -- claims a success only with the target state reached, and the result is true just then.
  pub execute-Reports : (r : TransitionRequest) (d : Device W) → Reports r (execute r d)
  unfolding execute
  execute-Reports r d = execute_from-Reports r (query_state d).0 (query_state d).1
