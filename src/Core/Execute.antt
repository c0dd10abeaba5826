-- ===== src/Core/Execute.antt =====
-- `DeviceQueue::execute`, `record_error`, `record_discarded` and the first half of
-- `execute_parameter_patch` in device_manager_core/src/device_manager.cpp.
pub mod Records
pub mod Success
pub mod Interleaving
pub mod Lawful
use device_manager.Common.{
  ℕ, String, Bool, true, false, not, List, [], ◌∷◌, some, ◌==◌, ◌&&◌, if◌then◌else◌,
}
use device_manager.Core.Types.{
  LifecycleState, unknown, success, failure, error, TransitionResult, ParameterMap,
  TransitionRequest, TransitionOutcome, TransitionRecord, state_eq, empty_request,
}
use device_manager.Core.Runtime.{Call, returns, throws, throws_unknown}
use device_manager.Core.Device.{Device, query_state, safe_state, read_clock}

-- The record before its time stamp.
abbrev pub draft :
    TransitionRequest → TransitionResult → Bool → LifecycleState → String → TransitionRecord
draft r result discarded actual m = record {
  request = r;
  result = result;
  discarded = discarded;
  actual_state = actual;
  message = m;
  timestamp = 0;
}

abbrev pub is_success : TransitionResult → Bool
is_success success = true
is_success failure = false
is_success error = false

-- A reported success that did not reach the target becomes a failure.
unfoldable pub normalize : TransitionRecord → TransitionRecord
normalize rec =
    if is_success rec.result && not (state_eq rec.actual_state rec.request.target_state)
    then record rec {
      result = failure;
      message = "runtime reported success without reaching the target state";
    }
    else rec

abbrev pub reached : TransitionRecord → Bool
reached rec = is_success rec.result && state_eq rec.actual_state rec.request.target_state

module _ {W : Type 0} where
  -- `record.timestamp = Clock::now()` and the assignment to `last_transition`.
  unfoldable pub publish : TransitionRecord → Device W → Device W
  publish rec d =
      let (t, d') = read_clock d in
      record d' { last_transition = some (record rec { timestamp = t }) }

  unfoldable pub record_error : String → Device W → Device W
  unfolding publish
  record_error m d = publish (draft empty_request error false unknown m) d

  unfoldable pub record_discarded : TransitionRequest → String → Device W → Device W
  unfolding publish safe_state
  record_discarded r m d = let (s, d') = safe_state d in publish (draft r failure true s m) d'

  -- The handlers of the `try` block: `kError`, with the state that can still be read.
  abbrev pub caught : TransitionRequest → String → Device W → TransitionRecord × Device W
  caught r m d = (draft r error false (safe_state d).0 m, (safe_state d).1)

  abbrev pub after_state :
      TransitionRequest
      → TransitionOutcome
      → Call LifecycleState × Device W
      → TransitionRecord × Device W
  after_state r o (returns s, d) = (draft r o.result false s o.message, d)
  after_state r o (throws m, d) = caught r m d
  after_state r o (throws_unknown, d) = caught r "runtime transition threw an unknown exception" d

  abbrev pub after_request :
      TransitionRequest → Call TransitionOutcome × Device W → TransitionRecord × Device W
  after_request r (returns o, d) = after_state r o (query_state d)
  after_request r (throws m, d) = caught r m d
  after_request r (throws_unknown, d) = caught r "runtime transition threw an unknown exception" d

  abbrev pub request : TransitionRequest → Device W → Call TransitionOutcome × Device W
  request r d = let (c, w) = d.runtime.request_transition r d.world in (c, record d { world = w })

  -- The `else` branch, where the source state is the expected one.
  unfoldable pub attempt : TransitionRequest → Device W → TransitionRecord × Device W
  unfolding safe_state
  attempt r d = after_request r (request r d)

  abbrev pub conclude : TransitionRecord × Device W → Bool × Device W
  conclude (rec, d) = (reached (normalize rec), publish (normalize rec) d)

  abbrev pub execute_from : TransitionRequest → Call LifecycleState × Device W → Bool × Device W
  execute_from r (returns s, d) =
      if state_eq s r.from_state
      then conclude (attempt r d)
      else conclude (draft r failure true s "discarded because the source state is stale", d)
  execute_from r (throws m, d) = (false, publish (draft r error false unknown m) d)
  execute_from r (throws_unknown, d) = (
    false,
    publish (draft r error false unknown "runtime state query threw an unknown exception") d,
  )

  unfoldable pub execute : TransitionRequest → Device W → Bool × Device W
  unfolding attempt normalize publish
  execute r d = execute_from r (query_state d)

  -- `for (request : requests) if (!execute(request)) break;`
  unfoldable pub execute_all : List TransitionRequest → Device W → Device W
  execute_all [] d = d
  execute_all (r ∷ rs) d =
      let (going, d') = execute r d in let rest = execute_all rs d' in if going then rest else d'

  unfoldable pub finalize : Device W → Device W
  unfolding safe_state
  finalize d =
      let (s, d') = safe_state d in
      if state_eq s LifecycleState.finalized
      then d'
      else (execute
          (record { from_state = s; target_state = LifecycleState.finalized; parameters = [] })
          d').1

  -- The block under both locks: is the patch superseded? If not, nothing is pending any more.
  unfoldable pub take_patch : ℕ → Device W → Bool × Device W
  take_patch revision d =
      if revision == d.parameter_revision
      then (false, record d { queue = record (d.queue) { pending_parameter_patch = [] } })
      else (true, d)

  abbrev pub planned : Call (List TransitionRequest) × Device W → List TransitionRequest × Device W
  planned (returns rs, d) = (rs, d)
  planned (throws m, d) = ([], record_error m d)
  planned (throws_unknown, d) =
      ([], record_error "runtime parameter transition planning threw an unknown exception" d)

  abbrev pub plan_from :
      ParameterMap
      → ParameterMap
      → Call LifecycleState × Device W
      → List TransitionRequest × Device W
  plan_from current patch (returns s, d) =
      let (c, w) = d.runtime.parameter_transitions s current patch d.world in
      planned (c, record d { world = w })
  plan_from current patch (throws m, d) = ([], record_error m d)
  plan_from current patch (throws_unknown, d) =
      ([], record_error "runtime state query threw an unknown exception" d)

  -- From the state query to the list of requests that the loop runs.
  unfoldable pub plan : ParameterMap → ParameterMap → Device W → List TransitionRequest × Device W
  unfolding record_error
  plan current patch d = plan_from current patch (query_state d)

  unfoldable pub execute_parameter_patch : ℕ → ParameterMap → Device W → Device W
  unfolding take_patch record_discarded plan execute_all
  execute_parameter_patch revision patch d =
      let (superseded, d') = take_patch revision d in
      let (rs, d'') = plan d.parameters patch d' in
      if superseded
      then record_discarded empty_request "superseded parameter patch" d'
      else execute_all rs d''
