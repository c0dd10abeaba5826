-- ===== src/Battery/Soc.antt =====
-- The state of charge: `SocSpikeFilter` and `BatterySocTransitionTracker` of
-- drivers/tws_battery_driver_ros2 (soc_spike_filter.hpp, battery_soc_transition_tracker.hpp).
use device_manager.Common.{
  ℕ, ◌+◌, Bool, true, not, ◌&&◌, List, [], ◌∷◌, Option, none, some, ◌≡◌, arith, leb, if◌then◌else◌,
}

-- The machine's `float`: `==`, `>= 100.0F` and `< 99.0F`.
pub record SocOps (F : Type 0) : Type 0 where
  pub same : F → F → Bool
  pub is_full : F → Bool
  pub below_near_full : F → Bool

-- The counter wraps at 2^64, far beyond what it reaches.
pub record SocSpikeFilter (F : Type 0) : Type 0 where
  pub has_accepted_soc : Bool
  pub accepted_soc : F
  pub pending_full_soc_count : ℕ

abbrev pub full_soc_confirm_count : ℕ
full_soc_confirm_count = 3

abbrev pub accept : {F : Type 0} → F → F × SocSpikeFilter F
accept soc =
    (soc, record { has_accepted_soc = true; accepted_soc = soc; pending_full_soc_count = 0 })

pub record BatterySocTransitionEvent (F : Type 0) : Type 0 where
  pub previous_soc : F
  pub current_soc : F

module _ {F : Type 0} (soc_ops : SocOps F) where
  open soc_ops use {same, is_full, below_near_full}

  unfoldable pub filter : F → SocSpikeFilter F → F × SocSpikeFilter F
  filter raw s =
      let count = s.pending_full_soc_count + 1 in
      if not s.has_accepted_soc
      then accept raw
      else if is_full raw && below_near_full s.accepted_soc
      then (if leb full_soc_confirm_count count
          then accept raw
          else (s.accepted_soc, record s { pending_full_soc_count = count }))
      else accept raw

  -- The filter on readings one after the other.
  pub filter_all : List F → SocSpikeFilter F → List F × SocSpikeFilter F
  filter_all [] s = ([], s)
  filter_all (x ∷ xs) s =
      let (y, s') = filter x s in let (ys, s'') = filter_all xs s' in (y ∷ ys, s'')

  -- `observe`, on the optional value that the tracker keeps.
  unfoldable pub observe : F → Option F → Option (BatterySocTransitionEvent F) × Option F
  observe soc none = (none, some soc)
  observe soc (some old) =
      if same soc old
      then (none, some old)
      else (some (record { previous_soc = old; current_soc = soc }), some soc)

  -- From an accepted value below 99 with nothing pending, two readings of 100 in a row are withheld
  -- and answered by the accepted value. The third reading is accepted whatever it is, and nothing
  -- is pending then.
  pub filter_all-confirms :
      (s : SocSpikeFilter F) (x y z : F)
      → s.has_accepted_soc ≡ true
      → s.pending_full_soc_count ≡ 0
      → below_near_full s.accepted_soc ≡ true
      → is_full x ≡ true
      → is_full y ≡ true
      → filter_all (x ∷ y ∷ z ∷ []) s ≡ (s.accepted_soc ∷ s.accepted_soc ∷ z ∷ [], (accept z).1)
  unfolding filter_all filter
  filter_all-confirms s x y z h p b f g = ground arith
