-- ===== src/Camera/Capture/Paced.antt =====
-- The frames are published no faster than the configuration says.
use native.Mathlib.Nat.{suc-mul}
use device_manager.Common.{
  ℕ, zero, suc, ◌+◌, ◌-◌, ◌*◌, ◌≤◌, ◌<◌, String, Bool, true, false, not, ◌||◌, List, [], ◌∷◌, ◌++◌,
  Option, none, some, ◌≡◌, sym, ap, ◌∙◌, subst, inl, inr, arith, length, length-append, All,
  All-append, ◌==◌, ==_iff, ltb, leb, both_branches, Bool-cases, if-true, if-false, if◌then◌else◌,
}
use text.Mathlib.Text.{◌==◌ as str_eq}
use device_manager.Core.Types.{LifecycleState, unconfigured, active}
use device_manager.Camera.Capture.{
  Backend, Capture, is_old, period_of, advance, emit_connection_event, set_rate, publish,
  handle_read, capture_round, capture_loop,
}

advance-ahead : (k p now next : ℕ) → next + p ≤ advance (suc k) p now next
unfolding advance
advance-ahead zero p now next = ground arith
advance-ahead (suc k) p now next = ground (arith, advance-ahead k p now (next + p))

-- The fuel is enough.
advance-past : (k p now next : ℕ) → 0 < p → now - next < k → now < advance k p now next
unfolding advance
advance-past zero p now next pos h = absurd (omega arith)
advance-past (suc k) p now next pos h = elim (Bool-cases (leb (next + p) now)) [
  | inl before ↦
      subst (λ n. now < n) (sym (if-true (leb (next + p) now) _ _ before))
        (advance-past k p now (next + p) pos (ground arith))
  | inr behind ↦
      subst (λ n. now < n) (sym (if-false (leb (next + p) now) _ _ behind)) (ground arith)
]

module _ {Frame : Type 0} where
  -- Each frame is not before its turn, of which there is one in each period.
  abbrev pub OnSchedule : ℕ → ℕ → List (ℕ × Frame) → Type 0
  OnSchedule p turn [] = Unit
  OnSchedule p turn ((t, f) ∷ fs) = (turn ≤ t) × OnSchedule p (turn + p) fs

  next_turn :
      (turn p : ℕ) (f : ℕ × Frame) (fs : List (ℕ × Frame))
      → turn + length (f ∷ fs) * p ≡ (turn + p) + length fs * p
  next_turn turn p f fs = omega (arith, suc-mul (length fs) p)

  OnSchedule-snoc :
      (p turn t : ℕ) (f : Frame) (fs : List (ℕ × Frame))
      → OnSchedule p turn fs
      → turn + length fs * p ≤ t
      → OnSchedule p turn (fs ++ (t, f) ∷ [])
  OnSchedule-snoc p turn t f [] h le = (omega arith, tt)
  OnSchedule-snoc p turn t f (g ∷ fs) (at, h) le =
      (at, OnSchedule-snoc p (turn + p) t f fs h (omega (arith, next_turn turn p g fs)))

  -- The frames are on schedule, and the next turn is behind all of them.
  abbrev pub Turns : ℕ → ℕ → ℕ → List (ℕ × Frame) → Type 0
  Turns p start next fs =
      OnSchedule p start fs × (start + length fs * p ≤ next) × All (λ f. f.0 < next) fs

  later : (fs : List (ℕ × Frame)) (a b : ℕ) → a ≤ b → All (λ f. f.0 < a) fs → All (λ f. f.0 < b) fs
  later [] a b le h = tt
  later (f ∷ fs) a b le (x, h) = (omega arith, later fs a b le h)

  Turns-publish :
      (p start next t : ℕ) (f : Frame) (fs : List (ℕ × Frame))
      → 0 < p
      → next ≤ t
      → Turns p start next fs
      → Turns p start (advance (t - next + 1) p t next) (fs ++ (t, f) ∷ [])
  Turns-publish p start next t f fs pos le (on, ahead, past) =
      let e : suc (t - next) ≡ t - next + 1 = omega arith in
      let next' = advance (t - next + 1) p t next in
      let far : next + p ≤ next' =
        subst (λ k. next + p ≤ advance k p t next) e (advance-ahead (t - next) p t next) in
      let over : t < next' = advance-past (t - next + 1) p t next pos (omega arith) in
      let one : length (fs ++ (t, f) ∷ []) ≡ suc (length fs) =
        length-append fs ((t, f) ∷ []) ∙ omega arith in
      let more = ap (λ n. n * p) one ∙ suc-mul (length fs) p in
      (
        OnSchedule-snoc p start t f fs on (omega arith),
        omega (arith, more, far, ahead),
        All-append (λ f. f.0 < next') fs ((t, f) ∷ []) (later fs next next' (omega arith) past)
            (over, tt),
      )

-- At a frame rate that is set, the frames take their turns from `start` on.
abbrev pub IsPaced : {Frame W : Type 0} → ℕ → ℕ → Capture Frame W → Type 0
IsPaced fps start r =
    (r.config.fps ≡ fps)
    × (r.publish_fps ≡ fps)
    × Turns (period_of fps) start r.next_publish_at r.published

module _ {Frame W : Type 0} (backend : Backend Frame W) (fps start : ℕ)
    (pos : 0 < period_of fps) where
  emit-IsPaced :
      (connected : Bool) (code message : String) (target : LifecycleState) (r : Capture Frame W)
      → IsPaced fps start r
      → IsPaced fps start (emit_connection_event backend connected code message target r)
  unfolding emit_connection_event
  emit-IsPaced connected code message target r h =
      both_branches (IsPaced {W = W} fps start) (is_old r.last_connected connected) _ _ h h

  set_rate-IsPaced :
      (r : Capture Frame W) → IsPaced fps start r → IsPaced fps start (set_rate backend r)
  unfolding set_rate
  set_rate-IsPaced r h =
      subst (IsPaced {W = W} fps start)
        (sym (if-true (r.config.fps == r.publish_fps) _ _ ((==_iff _ _).1 (h.0 ∙ sym h.1)))) h

  publish-IsPaced :
      (t : ℕ) (f : Frame) (r : Capture Frame W)
      → IsPaced fps start r
      → IsPaced fps start (publish backend t f r)
  publish-IsPaced t f r (rate, set, turns) = elim (Bool-cases (ltb t r.next_publish_at)) [
    | inl early ↦
        subst (IsPaced {W = W} fps start) (sym (if-true (ltb t r.next_publish_at) _ _ early))
          (rate, set, turns)
    | inr due ↦
        subst (IsPaced {W = W} fps start) (sym (if-false (ltb t r.next_publish_at) _ _ due)) (
          rate,
          set,
          subst
              (λ n.
                Turns (period_of fps) start
                  (advance (t - r.next_publish_at + 1) (period_of n) t r.next_publish_at)
                  (r.published ++ (t, f) ∷ []))
              (sym set)
              (Turns-publish (period_of fps) start r.next_publish_at t f r.published pos
                (ground arith) turns),
        )
  ]

  handle_read-IsPaced :
      (x : Option Frame × String × W) (r : Capture Frame W)
      → IsPaced fps start r
      → IsPaced fps start (handle_read backend x r)
  handle_read-IsPaced (some f, m, w) r h =
      publish-IsPaced _ f _ (emit-IsPaced true _ _ active (record r { device = w }) h)
  handle_read-IsPaced (none, m, w) r h =
      both_branches (IsPaced {W = W} fps start) (str_eq m "") _ _ h
        (emit-IsPaced false _ m unconfigured (record r { device = w }) h)

  capture_round-IsPaced :
      (stopped : Bool) (r : Capture Frame W)
      → IsPaced fps start r
      → IsPaced fps start (capture_round backend stopped r)
  unfolding capture_round
  capture_round-IsPaced stopped r h =
      let h' = set_rate-IsPaced r h in
      let r' = set_rate backend r in
      let x = backend.read_frame r'.config.read_timeout_ms r'.device in
      let goes_on = handle_read backend x r' in
      let stops : Capture Frame W = record r' { running = false; device = x.2 } in
      both_branches (IsPaced {W = W} fps start) (not r.running || not r.has_capture) r
        (if stopped then stops else goes_on) h
        (both_branches (IsPaced {W = W} fps start) stopped stops goes_on h'
          (handle_read-IsPaced x r' h'))

  -- At a frame rate whose period is not 0, and that is set, however many rounds the loop goes
  -- through: the frames that were published keep their turns, of which there is one in each period
  -- from `start` on, and the time for the next one is behind all of them.
  pub capture_loop-IsPaced :
      (rounds : List Bool) (r : Capture Frame W)
      → IsPaced fps start r
      → IsPaced fps start (capture_loop backend rounds r)
  unfolding capture_loop
  capture_loop-IsPaced [] r h = h
  capture_loop-IsPaced (stopped ∷ rest) r h =
      capture_loop-IsPaced rest (capture_round backend stopped r)
        (capture_round-IsPaced stopped r h)
