-- ===== src/Core/Worker/Kept.antt =====
-- A worker's step keeps what holds of the queued patches and of the patch in hand.
use device_manager.Common.{
  String, List, [], ◌∷◌, Option, some, none, ◌≡◌, refl, sym, subst, inl, inr, ◌==◌, ℕ, Bool-cases,
  ==_iff,
}
use device_manager.Core.Types.{
  LifecycleState, ParameterMap, TransitionRequest, state_eq, empty_request,
}
use device_manager.Core.Runtime.{Call, returns, throws, throws_unknown}
use device_manager.Core.Device.{RequestBatch, Device, query_state, safe_state}
use device_manager.Core.Queue.{next_batch}
use device_manager.Core.Queue.Order.{next_batch-nil, next_batch-urgent, next_batch-normal}
use device_manager.Core.Execute.{
  execute, finalize, take_patch, plan, plan_from, planned, record_discarded, record_error,
}
use device_manager.Core.Execute.Interleaving.{graft, execute_keeps}
use device_manager.Core.Worker.Coherence.{
  RevisionFits, PhaseFits, IsCoherent, Agrees-nil, EnableIsTrue-nil,
}
use device_manager.Core.Worker.{
  Worker, Phase, no_thread, waiting, finalizing, exited, executing, patching, discarding, planning,
  step_in, wake, phase_of, taken,
}

phase_of-fits :
    (n : ℕ) (m : ParameterMap) (b : RequestBatch) (r : Option ℕ)
    → RevisionFits n m b.parameter_patch r
    → PhaseFits n m (phase_of b r)
phase_of-fits n m b none f = tt
phase_of-fits n m b (some k) f = f

module _ {W : Type 0} where
  pub record IsSound (w : Worker W) : Type 0 where
    pub coherent : IsCoherent w.device
    pub fits : PhaseFits w.device.parameter_revision w.device.parameters w.phase

  IsCoherent-graft : (e d : Device W) → IsCoherent d → IsCoherent (graft e d)
  IsCoherent-graft e d c = record {
    agrees = c.agrees;
    enables = c.enables;
    urgent_fit = c.urgent_fit;
    normal_fit = c.normal_fit;
  }

  pub record_discarded_keeps :
      (r : TransitionRequest) (m : String) (d : Device W)
      → record_discarded r m d ≡ graft (record_discarded r m d) d
  unfolding record_discarded
  record_discarded_keeps r m d = refl

  planned_keeps :
      (c : Call (List TransitionRequest)) (d : Device W)
      → (planned (c, d)).1 ≡ graft (planned (c, d)).1 d
  unfolding record_error
  planned_keeps (returns rs) d = refl
  planned_keeps (throws m) d = refl
  planned_keeps throws_unknown d = refl

  pub plan_from_keeps :
      (current patch : ParameterMap) (c : Call LifecycleState) (d : Device W)
      → (plan_from current patch (c, d)).1 ≡ graft (plan_from current patch (c, d)).1 d
  unfolding record_error
  plan_from_keeps current patch (returns s) d =
      planned_keeps (d.runtime.parameter_transitions s current patch d.world).0
        (record d { world = (d.runtime.parameter_transitions s current patch d.world).1 })
  plan_from_keeps current patch (throws m) d = refl
  plan_from_keeps current patch throws_unknown d = refl

  finalize_keeps : (d : Device W) → finalize d ≡ graft (finalize d) d
  unfolding finalize safe_state
  finalize_keeps d = elim (Bool-cases (state_eq (safe_state d).0 LifecycleState.finalized)) [
    | inl done ↦ rw done
    | inr open_state ↦ rw open_state (execute_keeps _ (query_state d).1)
  ]

  -- A worker's own action keeps the clients' side.
  keeps-IsCoherent : (d d' : Device W) → d' ≡ graft d' d → IsCoherent d → IsCoherent d'
  keeps-IsCoherent d d' e c = subst IsCoherent (sym e) (IsCoherent-graft d' d c)

  taken-IsSound :
      (d : Device W) (us ns : List RequestBatch)
      → d.queue.urgent_queue ≡ us
      → d.queue.normal_queue ≡ ns
      → IsCoherent d
      → IsSound (taken d (next_batch d.queue))
  taken-IsSound d [] [] e f c = rw (next_batch-nil d.queue e f) (record { coherent = c; fits = tt })
  taken-IsSound d [] (b ∷ ns) e f c =
      let g = rw f at (c.normal_fit) in
      rw (next_batch-normal d.queue b ns e f) (record {
        coherent = record {
          agrees = c.agrees;
          enables = c.enables;
          urgent_fit = c.urgent_fit;
          normal_fit = g.1;
        };
        fits = phase_of-fits _ _ b b.parameter_revision g.0;
      })
  taken-IsSound d (b ∷ us) ns e f c =
      let g = rw e at (c.urgent_fit) in
      rw (next_batch-urgent d.queue b us e) (record {
        coherent = record {
          agrees = c.agrees;
          enables = c.enables;
          urgent_fit = g.1;
          normal_fit = c.normal_fit;
        };
        fits = phase_of-fits _ _ b b.parameter_revision g.0;
      })

  wake-IsSound : (d : Device W) → IsCoherent d → IsSound (wake d)
  unfolding wake
  wake-IsSound d c = elim (Bool-cases d.queue.stopping) [
    | inl ending ↦ simp ending (record { coherent = c; fits = tt })
    | inr going ↦ simp going (taken-IsSound d d.queue.urgent_queue d.queue.normal_queue refl refl c)
  ]

  take_patch-IsSound :
      (n : ℕ) (patch : ParameterMap) (d : Device W)
      → PhaseFits d.parameter_revision d.parameters (patching n patch)
      → IsCoherent d
      → IsSound (step_in (patching n patch) d)
  unfolding step_in take_patch
  take_patch-IsSound n patch d f c = elim (Bool-cases (n == d.parameter_revision)) [
    | inl live ↦ rw live (record {
      coherent = record {
        agrees = Agrees-nil d.parameters;
        enables = EnableIsTrue-nil;
        urgent_fit = c.urgent_fit;
        normal_fit = c.normal_fit;
      };
      fits = f.1 ((==_iff n d.parameter_revision).0 live);
    })
    | inr old ↦ rw old (record { coherent = c; fits = tt })
  ]

  executing-IsSound :
      (r : TransitionRequest) (rs : List TransitionRequest) (d : Device W)
      → IsCoherent d
      → IsSound (step_in (executing (r ∷ rs)) d)
  unfolding step_in
  executing-IsSound r rs d c =
      let kept = keeps-IsCoherent d (execute r d).1 (execute_keeps r d) c in
      elim (Bool-cases (execute r d).0) [
        | inl going ↦ rw going (record { coherent = kept; fits = tt })
        | inr ended ↦ rw ended (record { coherent = kept; fits = tt })
      ]

  pub step_in-IsSound :
      (p : Phase) (d : Device W)
      → PhaseFits d.parameter_revision d.parameters p
      → IsCoherent d
      → IsSound (step_in p d)
  unfolding step_in plan
  step_in-IsSound no_thread d f c = record { coherent = c; fits = tt }
  step_in-IsSound waiting d f c = wake-IsSound d c
  step_in-IsSound (executing []) d f c = record { coherent = c; fits = tt }
  step_in-IsSound (executing (r ∷ rs)) d f c = executing-IsSound r rs d c
  step_in-IsSound (patching n patch) d f c = take_patch-IsSound n patch d f c
  step_in-IsSound discarding d f c = record {
    coherent = keeps-IsCoherent d _ (record_discarded_keeps empty_request _ d) c;
    fits = tt;
  }
  step_in-IsSound (planning current patch) d f c = record {
    coherent =
        keeps-IsCoherent d _ (plan_from_keeps current patch (query_state d).0 (query_state d).1) c;
    fits = tt;
  }
  step_in-IsSound finalizing d f c = record {
    coherent = keeps-IsCoherent d _ (finalize_keeps d) c;
    fits = tt;
  }
  step_in-IsSound exited d f c = record { coherent = c; fits = tt }
