-- ===== src/Oradar/Settings/Applied.antt =====
-- The settings of the lidar after `apply_device_settings`.
use device_manager.Common.{
  ℕ, String, Bool, true, false, not, ◌||◌, Option, none, some, ◌≡◌, refl, sym, ap, ◌∙◌, inl, inr,
  if-true, if-false, Bool-cases, ◌==◌, ==_iff, if◌then◌else◌,
}
use device_manager.Oradar.Client.{Error, no_error, is_ok, OradarLidarConfig, Client}
use device_manager.Oradar.Settings.{
  adjust, and_then, adjust_speed, adjust_filter, adjust_direction, save, adjust_all,
  apply_device_settings, failed_as,
}

pub record Settings : Type 0 where
  pub speed : ℕ
  pub filter : ℕ
  pub direction : ℕ

is_ok-no_error : (e : Error) → is_ok e ≡ true → e ≡ no_error
is_ok-no_error no_error h = refl
is_ok-no_error e h = absurd cc

-- How a read and a write of one setting answer for the device: a read changes nothing, and one that
-- succeeds gives the setting; a write that succeeds changes the setting alone.
pub record Keeps {W : Type 0} (current saved : W → Settings) (part : Settings → ℕ)
    (put : ℕ → Settings → Settings) (get : W → Error × ℕ × W) (set : ℕ → W → Error × W)
    : Type 0 where
  pub reads : (w : W) → (get w).0 ≡ no_error → (get w).1 ≡ part (current w)
  pub kept : (w : W) → current (get w).2 ≡ current w
  pub kept_saved : (w : W) → saved (get w).2 ≡ saved w
  pub writes : (v : ℕ) (w : W) → (set v w).0 ≡ no_error → current (set v w).1 ≡ put v (current w)
  pub writes_saved : (v : ℕ) (w : W) → (set v w).0 ≡ no_error → saved (set v w).1 ≡ saved w

module _ {W : Type 0} (current saved : W → Settings) where
  -- What a successful step says of the world behind it.
  abbrev Adjusted :
      (Settings → ℕ) → (ℕ → Settings → Settings) → ℕ → W → Option String × Bool × W → Type 0
  Adjusted part put wanted w (none, changed, w') =
      (current w' ≡ put wanted (current w))
      × (saved w' ≡ saved w)
      × (changed ≡ not (part (current w) == wanted))
  Adjusted part put wanted w (some e, changed, w') = Unit

  adjust-Adjusted :
      (part : Settings → ℕ) (put : ℕ → Settings → Settings)
      → ((s : Settings) → put (part s) s ≡ s)
      → (what : String) (get : W → Error × ℕ × W) (set : ℕ → W → Error × W)
      → Keeps current saved part put get set
      → (wanted : ℕ) (w : W) → Adjusted part put wanted w (adjust what get set wanted w)
  unfolding adjust
  adjust-Adjusted part put same what get set law wanted w =
      let (read, value, w1) = get w in
      let (written, w2) = set wanted w1 in
      let here = λ (good : is_ok read ≡ true). law.reads w (is_ok-no_error read good) in
      elim (Bool-cases (is_ok read)) [
        | inr bad ↦ simp bad tt
        | inl good ↦ elim (Bool-cases (value == wanted)) [
          | inl e ↦
              let p : part (current w) ≡ wanted = sym (here good) ∙ (==_iff value wanted).0 e in
              simp (good, e)
                (
                  law.kept w ∙ sym (same (current w)) ∙ ap (λ k. put k (current w)) p,
                  law.kept_saved w,
                  ap not (sym ((==_iff _ _).1 p)),
                )
          | inr e ↦ elim (Bool-cases (is_ok written)) [
            | inr bad ↦ simp (good, e, bad) tt
            | inl fine ↦
                let done = is_ok-no_error written fine in
                simp (good, e, fine)
                  (
                    law.writes wanted w1 done ∙ ap (put wanted) (law.kept w),
                    law.writes_saved wanted w1 done ∙ law.kept_saved w,
                    ap not (sym (ap (λ k. k == wanted) (sym (here good)) ∙ e)),
                  )
          ]
        ]
      ]

  -- A chain of steps from `w`, if it succeeds, is at `goal` and was changed if `test`.
  abbrev Reached : Settings → Bool → W → Option String × Bool × W → Type 0
  Reached goal test w (none, changed, w') =
      (current w' ≡ goal) × (saved w' ≡ saved w) × (changed ≡ test)
  Reached goal test w (some e, changed, w') = Unit

  also :
      (goal : Settings) (a b changed : Bool) (w : W) (y : Option String × Bool × W)
      → changed ≡ a
      → Reached goal b w y
      → Reached goal (a || b) w (y.0, changed || y.1, y.2)
  also goal a b changed w (none, more, w') h (at, kept, e) =
      (at, kept, ap (λ c. c || more) h ∙ ap (λ c. a || c) e)
  also goal a b changed w (some m, more, w') h k = tt

  and_then-Reached :
      (x : Option String × Bool × W) (more : W → Option String × Bool × W) (first goal : Settings)
      (a b : Bool) (w : W)
      → Reached first a w x
      → ((w' : W) → current w' ≡ first → saved w' ≡ saved w → Reached goal b w (more w'))
      → Reached goal (a || b) w (and_then x more)
  and_then-Reached (none, changed, w') more first goal a b w (at, kept, e) k =
      also goal a b changed w (more w') e (k w' at kept)
  and_then-Reached (some m, changed, w') more first goal a b w h k = tt

  -- A step from a world that stands for another one.
  Adjusted-Reached :
      (part : Settings → ℕ) (put : ℕ → Settings → Settings) (wanted : ℕ) (w w' : W) (s : Settings)
      (y : Option String × Bool × W)
      → current w' ≡ s
      → saved w' ≡ saved w
      → Adjusted part put wanted w' y
      → Reached (put wanted s) (not (part s == wanted)) w y
  Adjusted-Reached part put wanted w w' s (none, changed, v) at kept (a, b, c) =
      (a ∙ ap (put wanted) at, b ∙ kept, c ∙ ap (λ t. not (part t == wanted)) at)
  Adjusted-Reached part put wanted w w' s (some m, changed, v) at kept h = tt

  step-Reached :
      (part : Settings → ℕ) (put : ℕ → Settings → Settings)
      → ((s : Settings) → put (part s) s ≡ s)
      → (what : String) (get : W → Error × ℕ × W) (set : ℕ → W → Error × W)
      → Keeps current saved part put get set
      → (wanted : ℕ) (w w' : W) (s : Settings) → current w' ≡ s
      → saved w' ≡ saved w
      → Reached (put wanted s) (not (part s == wanted)) w (adjust what get set wanted w')
  step-Reached part put same what get set law wanted w w' s at kept =
      Adjusted-Reached part put wanted w w' s _ at kept
        (adjust-Adjusted part put same what get set law wanted w')

abbrev put_speed : ℕ → Settings → Settings
put_speed v s = record s { speed = v }

abbrev put_filter : ℕ → Settings → Settings
put_filter v s = record s { filter = v }

abbrev put_direction : ℕ → Settings → Settings
put_direction v s = record s { direction = v }

-- A lidar with current and saved settings: its calls, if they succeed, read and write these, and
-- saving saves the current ones.
pub record IsLidar {D W : Type 0} (client : Client D W) (current saved : W → Settings)
    : Type 0 where
  pub speed :
      Keeps current saved (λ s. s.speed) put_speed client.get_scan_speed client.set_scan_speed
  pub filter :
      Keeps current saved
        (λ s. s.filter)
        put_filter
        client.get_tail_filter_level
        client.set_tail_filter_level
  pub direction :
      Keeps current saved
        (λ s. s.direction)
        put_direction
        client.get_scan_direction
        client.set_scan_direction
  pub saves :
      (w : W) → (client.apply_configs w).0 ≡ no_error → saved (client.apply_configs w).1 ≡ current w
  pub keeps :
      (w : W)
      → (client.apply_configs w).0 ≡ no_error
      → current (client.apply_configs w).1 ≡ current w

abbrev pub wanted_settings : {D : Type 0} → OradarLidarConfig D → Settings
wanted_settings c = record {
  speed = c.motor_speed;
  filter = c.filter_size;
  direction = c.motor_dir;
}

abbrev pub differs : Settings → Settings → Bool
differs s t =
    (not (s.speed == t.speed) || not (s.filter == t.filter)) || not (s.direction == t.direction)

module _ {W : Type 0} (current saved : W → Settings) where
  -- What a success of the last step says.
  abbrev pub Applied : Settings → Bool → W → Option String × W → Type 0
  Applied goal test w (none, w') =
      (current w' ≡ goal) × (saved w' ≡ (if test then goal else saved w))
  Applied goal test w (some e, w') = Unit

module _ {D W : Type 0} (client : Client D W) (current saved : W → Settings)
    (law : IsLidar client current saved) where
  adjust_all-Reached :
      (c : OradarLidarConfig D) (w : W)
      → Reached current saved
          (wanted_settings c)
          (differs (current w) (wanted_settings c))
          w
          (adjust_all client c w)
  unfolding adjust_all
  adjust_all-Reached c w =
      let s = current w in
      let s1 = put_speed c.motor_speed s in
      let s2 = put_filter c.filter_size s1 in
      let slow = not (s.speed == c.motor_speed) in
      let rough = not (s.filter == c.filter_size) in
      let wrong = not (s.direction == c.motor_dir) in
      and_then-Reached current saved (and_then (adjust_speed client c w) (adjust_filter client c))
        (adjust_direction client c) s2 (wanted_settings c) (slow || rough) wrong w
        (and_then-Reached current saved (adjust_speed client c w) (adjust_filter client c) s1 s2
          slow rough w
          (step-Reached current saved (λ t. t.speed) put_speed (λ t. refl) "scan speed"
            client.get_scan_speed client.set_scan_speed law.speed c.motor_speed w w s refl refl)
          (λ v at kept.
            step-Reached current saved (λ t. t.filter) put_filter (λ t. refl) "filter size"
              client.get_tail_filter_level client.set_tail_filter_level law.filter c.filter_size w v
              s1 at kept))
        (λ v at kept.
          step-Reached current saved (λ t. t.direction) put_direction (λ t. refl) "scan direction"
            client.get_scan_direction client.set_scan_direction law.direction c.motor_dir w v s2 at
            kept)

  failed_as-Applied :
      (goal : Settings) (test : Bool) (w : W) (what : String) (x : Error × W)
      → (x.0 ≡ no_error → (current x.1 ≡ goal) × (saved x.1 ≡ (if test then goal else saved w)))
      → Applied current saved goal test w (failed_as what x.0, x.1)
  failed_as-Applied goal test w what (no_error, v) h = h refl
  failed_as-Applied goal test w what (e, v) h = tt

  save-Applied :
      (goal : Settings) (test : Bool) (w : W) (x : Option String × Bool × W)
      → Reached current saved goal test w x
      → Applied current saved goal test w (save client x)
  save-Applied goal test w (some e, changed, w') h = tt
  save-Applied goal test w (none, false, w') (at, kept, e) =
      (at, kept ∙ sym (if-false test _ _ (sym e)))
  save-Applied goal test w (none, true, w') (at, kept, e) =
      failed_as-Applied goal test w "failed to save lidar config" (client.apply_configs w')
        (λ done. (law.keeps w' done ∙ at, law.saves w' done ∙ at ∙ sym (if-true test _ _ (sym e))))

  -- If the settings were applied with no error, the lidar's current settings are those of the
  -- configuration; and they were saved if one of them was another before, while nothing was saved
  -- if none was.
  pub apply_device_settings-Applied :
      (c : OradarLidarConfig D) (w : W)
      → Applied current saved
          (wanted_settings c)
          (differs (current w) (wanted_settings c))
          w
          (apply_device_settings client c w)
  unfolding apply_device_settings
  apply_device_settings-Applied c w = save-Applied _ _ w _ (adjust_all-Reached c w)
