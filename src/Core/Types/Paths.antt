-- ===== src/Core/Types/Paths.antt =====
-- Chains of transitions: what `is_contiguous` accepts, and the chains that the standard policy
-- for parameter changes builds.
use device_manager.Common.{
  ℕ, zero, suc, true, List, [], ◌∷◌, ◌≡◌, refl, ◌↔◌, ◌<◌, ◌⊎◌, length, arith, get_or,
}
use device_manager.Core.Types.{
  LifecycleState, unconfigured, inactive, active, finalized, ParameterMap, TransitionRequest,
  is_contiguous, standard_parameter_transitions, state_eq, state_eq_iff, empty_request,
}

abbrev pub at_index : List TransitionRequest → ℕ → TransitionRequest
at_index rs i = get_or rs i empty_request

-- The index form of the source's loop: `requests[i - 1].target_state` is `requests[i].from_state`.
abbrev pub IsChain : List TransitionRequest → Type 0
IsChain rs =
    (i : ℕ) → suc i < length rs → (at_index rs i).target_state ≡ (at_index rs (suc i)).from_state

is_contiguous-cons :
    (r s : TransitionRequest) (rest : List TransitionRequest)
    → (is_contiguous (r ∷ s ∷ rest) ≡ true)
      ↔ ((r.target_state ≡ s.from_state) × (is_contiguous (s ∷ rest) ≡ true))
unfolding is_contiguous
is_contiguous-cons r s rest = ground (arith, state_eq_iff r.target_state s.from_state)

is_contiguous_sound : (rs : List TransitionRequest) → is_contiguous rs ≡ true → IsChain rs
is_contiguous_sound [] h i lt = absurd (omega arith)
is_contiguous_sound (r ∷ []) h i lt = absurd (omega arith)
is_contiguous_sound (r ∷ s ∷ rest) h zero lt = ((is_contiguous-cons r s rest).0 h).0
is_contiguous_sound (r ∷ s ∷ rest) h (suc i) lt =
    is_contiguous_sound (s ∷ rest) ((is_contiguous-cons r s rest).0 h).1 i (omega arith)

is_contiguous_complete : (rs : List TransitionRequest) → IsChain rs → is_contiguous rs ≡ true
unfolding is_contiguous
is_contiguous_complete [] h = refl
is_contiguous_complete (r ∷ []) h = refl
is_contiguous_complete (r ∷ s ∷ rest) h =
    (is_contiguous-cons r s rest).1
      (h 0 (omega arith), is_contiguous_complete (s ∷ rest) (λ i lt. h (suc i) (omega arith)))

-- `is_contiguous` accepts a batch exactly when every request starts where the one before it ends.
is_contiguous_iff : (rs : List TransitionRequest) → (is_contiguous rs ≡ true) ↔ IsChain rs
is_contiguous_iff rs = (is_contiguous_sound rs, is_contiguous_complete rs)

-- Where a chain ends that starts in `s`.
abbrev pub end_of : LifecycleState → List TransitionRequest → LifecycleState
end_of s [] = s
end_of s (r ∷ rs) = end_of r.target_state rs

abbrev pub StartsAt : LifecycleState → List TransitionRequest → Type 0
StartsAt s [] = Unit
StartsAt s (r ∷ rs) = r.from_state ≡ s

-- The parameters that the chain's requests to configure carry.
abbrev pub configured_with : List TransitionRequest → List ParameterMap
configured_with [] = []
configured_with (r ∷ rs) = elim r.from_state [
  | unconfigured ↦ r.parameters ∷ configured_with rs
  | _ ↦ configured_with rs
]

abbrev pub IsStable : LifecycleState → Type 0
IsStable s = ((s ≡ unconfigured) ⊎ (s ≡ inactive)) ⊎ ((s ≡ active) ⊎ (s ≡ finalized))

-- Where the standard policy leads from a stable state: an active device becomes active again, any
-- other becomes inactive.
abbrev pub goal_of : LifecycleState → LifecycleState
goal_of active = active
goal_of _ = inactive

-- From a stable state the standard policy gives a batch that the manager accepts as contiguous,
-- that starts in that state, configures the device exactly once, with the merged parameters, and
-- ends active if the device was active and inactive otherwise.
pub standard_parameter_transitions-IsChain :
    (s : LifecycleState) (p : ParameterMap)
    → IsStable s
    → let rs = standard_parameter_transitions s p in
      (is_contiguous rs ≡ true)
      × StartsAt s rs
      × (end_of s rs ≡ goal_of s)
      × (configured_with rs ≡ p ∷ [])
unfolding standard_parameter_transitions is_contiguous state_eq
standard_parameter_transitions-IsChain active p h = (refl, refl, refl, refl)
standard_parameter_transitions-IsChain inactive p h = (refl, refl, refl, refl)
standard_parameter_transitions-IsChain finalized p h = (refl, refl, refl, refl)
standard_parameter_transitions-IsChain unconfigured p h = (refl, refl, refl, refl)
standard_parameter_transitions-IsChain _ p h = ground arith
