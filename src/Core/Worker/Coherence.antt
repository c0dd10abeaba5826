-- ===== src/Core/Worker/Coherence.antt =====
-- The worker and its clients as an interleaving of atomic steps, and what holds of the pending
-- patch and of the queued patches in every reachable state.
use text.Mathlib.TextEquality.{eq_iff}
use device_manager.Common.{
  ℕ, String, true, List, [], ◌∷◌, Option, none, some, ◌≡◌, refl, ◌<◌, ◌≤◌, arith, length, ◌==◌,
  find, merge, find-merge, IsMap, Agrees, All, Option-cases, inl, inr, ◌⊎◌, ap, sym, ◌∙◌,
}
use device_manager.Core.Types.{ParameterMap, ParameterValue, bool_value}
use device_manager.Core.Device.{RequestBatch, Device}
use device_manager.Core.Queue.{enable_patch, enable_key, absent, present, classify}
use device_manager.Core.Worker.{
  Phase, no_thread, waiting, finalizing, exited, executing, patching, discarding, planning,
}

-- `device.enable`, where the map has it, is true.
abbrev pub EnableIsTrue : ParameterMap → Type 0
EnableIsTrue m = (v : ParameterValue) → find enable_key m ≡ some v → v ≡ bool_value true

-- A queued patch is no newer than the device's revision; at that revision it says of no parameter
-- anything else than the merged parameters do.
abbrev pub Fits : ℕ → ParameterMap → ℕ → ParameterMap → Type 0
Fits current parameters n patch =
    (n ≤ current) × (n ≡ current → Agrees patch parameters × EnableIsTrue patch)

abbrev pub RevisionFits : ℕ → ParameterMap → ParameterMap → Option ℕ → Type 0
RevisionFits current parameters patch none = Unit
RevisionFits current parameters patch (some n) = Fits current parameters n patch

abbrev pub BatchFits : ℕ → ParameterMap → RequestBatch → Type 0
BatchFits current parameters b =
    RevisionFits current parameters b.parameter_patch b.parameter_revision

abbrev pub PhaseFits : ℕ → ParameterMap → Phase → Type 0
PhaseFits current parameters (patching n patch) = Fits current parameters n patch
PhaseFits current parameters (planning merged patch) = Agrees patch merged × EnableIsTrue patch
PhaseFits current parameters _ = Unit

pub record IsCoherent {W : Type 0} (d : Device W) : Type 0 where
  pub agrees : Agrees d.queue.pending_parameter_patch d.parameters
  pub enables : EnableIsTrue d.queue.pending_parameter_patch
  pub urgent_fit : All (BatchFits d.parameter_revision d.parameters) d.queue.urgent_queue
  pub normal_fit : All (BatchFits d.parameter_revision d.parameters) d.queue.normal_queue

-- How the revision and the merged parameters may change under what is queued: a newer revision,
-- or the same one with nothing said otherwise.
abbrev pub Grows : ℕ → ParameterMap → ℕ → ParameterMap → Type 0
Grows n m n' m' =
    ((n ≡ n') × ((p : ParameterMap) → Agrees p m → EnableIsTrue p → Agrees p m')) ⊎ (n < n')

pub Grows-refl : (n : ℕ) (m : ParameterMap) → Grows n m n m
Grows-refl n m = inl (refl, (λ p a e. a))

module _ (n : ℕ) (m : ParameterMap) (n' : ℕ) (m' : ParameterMap) where
  Fits-Grows : (k : ℕ) (p : ParameterMap) → Grows n m n' m' → Fits n m k p → Fits n' m' k p
  Fits-Grows k p (inl (e, keep)) (le, fit) =
      (omega arith, (λ h. let (a, t) = fit (omega arith) in (keep p a t, t)))
  Fits-Grows k p (inr lt) (le, fit) = (omega arith, (λ h. absurd (omega arith)))

  RevisionFits-Grows :
      (r : Option ℕ) (p : ParameterMap)
      → Grows n m n' m'
      → RevisionFits n m p r
      → RevisionFits n' m' p r
  RevisionFits-Grows none p g f = tt
  RevisionFits-Grows (some k) p g f = Fits-Grows k p g f

  pub Batches-Grows :
      (bs : List RequestBatch) → Grows n m n' m' → All (BatchFits n m) bs → All (BatchFits n' m') bs
  Batches-Grows [] g f = tt
  Batches-Grows (b ∷ bs) g f =
      (RevisionFits-Grows b.parameter_revision b.parameter_patch g f.0, Batches-Grows bs g f.1)

  pub PhaseFits-Grows : (p : Phase) → Grows n m n' m' → PhaseFits n m p → PhaseFits n' m' p
  PhaseFits-Grows (patching k patch) g f = Fits-Grows k patch g f
  PhaseFits-Grows (planning merged patch) g f = f
  PhaseFits-Grows no_thread g f = tt
  PhaseFits-Grows waiting g f = tt
  PhaseFits-Grows finalizing g f = tt
  PhaseFits-Grows exited g f = tt
  PhaseFits-Grows (executing rs) g f = tt
  PhaseFits-Grows discarding g f = tt

pub EnableIsTrue-merge :
    (p m : ParameterMap) → IsMap m → EnableIsTrue m → EnableIsTrue p → EnableIsTrue (merge p m)
EnableIsTrue-merge p m h em ep v e = ground (arith, find-merge enable_key p m h, em v, ep v)

pub EnableIsTrue-absent : (m : ParameterMap) → enable_patch m ≡ absent → EnableIsTrue m
unfolding classify
EnableIsTrue-absent m h v e = ground arith

pub EnableIsTrue-present : (m : ParameterMap) → enable_patch m ≡ present true → EnableIsTrue m
unfolding classify
EnableIsTrue-present m h v e = ground arith

-- A patch of one entry that enables the device says nothing else.
only_enable :
    (m : ParameterMap) (k : String) (w : ParameterValue)
    → (length m == 1) ≡ true
    → enable_patch m ≡ present true
    → find k m ≡ some w
    → (k ≡ enable_key) × (w ≡ bool_value true)
unfolding classify find
only_enable [] k w one e f = ground arith
only_enable ((j, u) ∷ []) k w one e f = ground (arith, eq_iff j k, eq_iff j enable_key)
only_enable ((j, u) ∷ x ∷ m) k w one e f = ground arith

pub Agrees-only_enable :
    (whole m : ParameterMap)
    → IsMap m
    → (length m == 1) ≡ true
    → enable_patch m ≡ present true
    → (p : ParameterMap) → Agrees p whole
    → EnableIsTrue p
    → Agrees p (merge whole m)
Agrees-only_enable whole m h one e p a t k v f = elim (Option-cases (find k m)) [
  | inl skipped ↦ rw (find-merge k whole m h, skipped) (a k v f)
  | inr (w, hit) ↦
      let (key, is_true) = only_enable m k w one e hit in
      rw (find-merge k whole m h, hit) (ap some (is_true ∙ sym (t v (rw key at f))))
]

pub Grows-only_enable :
    (n : ℕ) (whole m : ParameterMap)
    → IsMap m
    → (length m == 1) ≡ true
    → enable_patch m ≡ present true
    → Grows n whole n (merge whole m)
Grows-only_enable n whole m h one e = inl (refl, Agrees-only_enable whole m h one e)

pub Agrees-nil : (m : ParameterMap) → Agrees [] m
unfolding find
Agrees-nil m k v e = cc

pub EnableIsTrue-nil : EnableIsTrue []
unfolding find
EnableIsTrue-nil v e = cc
