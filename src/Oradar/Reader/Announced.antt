-- ===== src/Oradar/Reader/Announced.antt =====
-- The reader of the lidar announces its stream once, and leaves the lifecycle alone.
use text.Mathlib.Text.{◌==◌ as str_eq}
use device_manager.Common.{
  ℕ, zero, suc, ◌+◌, String, Bool, true, false, not, ◌||◌, List, [], ◌∷◌, ◌++◌, Option, none, some,
  ◌≡◌, refl, sym, ap, ◌∙◌, arith, if◌then◌else◌, if-true, both_branches,
}
use device_manager.Core.Types.{DeviceEvent}
use device_manager.Oradar.Client.{Error, no_error, Doubles, ScanFrame, Client}
use device_manager.Oradar.Session.{OradarLidarRuntime, emit_event}
use device_manager.Oradar.Scan.{ScanOps, LaserScan}
use device_manager.Oradar.Reader.{
  StampClock, disconnected, announce, deliver, read_scan, read_round, go_on, read_loop,
}

-- The events that say that the stream is online.
abbrev pub announcements : List DeviceEvent → ℕ
announcements [] = 0
announcements (e ∷ es) =
    if str_eq e.code "oradar_lidar.online" then suc (announcements es) else announcements es

one_more : (b : Bool) (n m : ℕ) → (if b then suc (n + m) else n + m) ≡ (if b then suc n else n) + m
one_more true n m = omega arith
one_more false n m = refl

announcements-append :
    (es fs : List DeviceEvent) → announcements (es ++ fs) ≡ announcements es + announcements fs
announcements-append [] fs = omega arith
announcements-append (e ∷ es) fs =
    let online = str_eq e.code "oradar_lidar.online" in
    ap (λ n. if online then suc n else n) (announcements-append es fs)
    ∙ one_more online (announcements es) (announcements fs)

-- What the reader leaves as it is.
abbrev pub Same : {D W : Type 0} → OradarLidarRuntime D W → OradarLidarRuntime D W → Type 0
Same r s =
    (s.state ≡ r.state)
    × (s.has_client ≡ r.has_client)
    × (s.reading ≡ r.reading)
    × (s.has_handler ≡ r.has_handler)

-- One announcement if there was none before and a scan was published.
abbrev pub announced : {F : Type 0} → Bool → List (LaserScan F) → ℕ
announced true scans = 0
announced false [] = 0
announced false (s ∷ scans) = 1

abbrev emitted : {F : Type 0} → Bool → List (LaserScan F) → Bool
emitted true scans = true
emitted false [] = false
emitted false (s ∷ scans) = true

announced-append :
    {F : Type 0} (b : Bool) (xs ys : List (LaserScan F))
    → announced b (xs ++ ys) ≡ announced b xs + announced (emitted b xs) ys
announced-append true xs ys = refl
announced-append false [] ys = omega arith
announced-append false (x ∷ xs) ys = refl

emitted-append :
    {F : Type 0} (b : Bool) (xs ys : List (LaserScan F))
    → emitted b (xs ++ ys) ≡ emitted (emitted b xs) ys
emitted-append true xs ys = refl
emitted-append false [] ys = refl
emitted-append false (x ∷ xs) ys = refl

module _ {D F W : Type 0} where
  -- What some rounds have done.
  abbrev Told : OradarLidarRuntime D W → List (LaserScan F) × OradarLidarRuntime D W → Type 0
  Told r (scans, s) =
      Same r s
      × (s.connected_event_emitted ≡ emitted r.connected_event_emitted scans)
      × (announcements s.events
          ≡ announcements r.events + announced r.connected_event_emitted scans)

  Told-append :
      (r s t : OradarLidarRuntime D W) (xs ys : List (LaserScan F))
      → Told r (xs, s)
      → Told s (ys, t)
      → Told r (xs ++ ys, t)
  Told-append r s t xs ys ((a, b, c, d), flag, count) ((a', b', c', d'), flag', count') =
      let was = r.connected_event_emitted in
      (
        (a' ∙ a, b' ∙ b, c' ∙ c, d' ∙ d),
        flag' ∙ ap (λ x. emitted x ys) flag ∙ sym (emitted-append was xs ys),
        count'
            ∙ ap (λ x. announcements s.events + announced x ys) flag
            ∙ omega (arith, count, announced-append was xs ys),
      )

nothing_emitted : (F : Type 0) (b : Bool) → b ≡ emitted {F = F} b []
nothing_emitted F true = refl
nothing_emitted F false = refl

nothing_announced : (F : Type 0) (b : Bool) → announced {F = F} b [] ≡ 0
nothing_announced F true = refl
nothing_announced F false = refl

announcements-snoc :
    (h : Bool) (es : List DeviceEvent) (e : DeviceEvent)
    → h ≡ true
    → announcements (if h then es ++ e ∷ [] else es) ≡ announcements es + announcements (e ∷ [])
announcements-snoc h es e installed =
    ap announcements (if-true h _ _ installed) ∙ announcements-append es (e ∷ [])

module _ {D F W : Type 0} (doubles : Doubles D) (client : Client D W) (clock : W → ℕ × W)
    (stamps : StampClock D W) (ops : ScanOps D F) where
  disconnected-Told :
      (m : String) (r : OradarLidarRuntime D W) (w : W)
      → r.has_handler ≡ true
      → Told {F = F} r ([], disconnected doubles client clock stamps ops m (record r { lidar = w }))
  unfolding emit_event
  disconnected-Told m r w h =
      let was = r.connected_event_emitted in
      (
        (refl, refl, refl, refl),
        nothing_emitted F was,
        announcements-snoc r.has_handler r.events _ h
            ∙ ap (λ n. announcements r.events + n) (sym (nothing_announced F was)),
      )

  announce-Told :
      (b : Bool) (r : OradarLidarRuntime D W) (scan : LaserScan F)
      → r.has_handler ≡ true
      → Told
          (record r { connected_event_emitted = b })
          (
            scan ∷ [],
            announce doubles client clock stamps ops (record r { connected_event_emitted = b }),
          )
  unfolding emit_event
  announce-Told true r scan h = ((refl, refl, refl, refl), refl, omega arith)
  announce-Told false r scan h =
      ((refl, refl, refl, refl), refl, announcements-snoc r.has_handler r.events _ h)

  read_scan-Told :
      (x : Option String × W) (r : OradarLidarRuntime D W)
      → r.has_handler ≡ true
      → Told r (read_scan doubles client clock stamps ops x r)
  read_scan-Told (some m, w) r h = disconnected-Told m r w h
  read_scan-Told (none, w) r h =
      let (start, w') = stamps.now w in deliver-Told start (client.get_scan_frame_data w') r h
    where
      deliver-Told :
          (start : ℕ) (x : Error × ScanFrame × W) (r : OradarLidarRuntime D W)
          → r.has_handler ≡ true
          → Told r (deliver doubles client clock stamps ops start x r)
      deliver-Told start (no_error, frame, w) r h =
          announce-Told r.connected_event_emitted (record r { lidar = (stamps.now w).1 }) _ h
      deliver-Told start (e, frame, w) r h = disconnected-Told _ r _ h

  abbrev TellsRound :
      OradarLidarRuntime D W → Option (List (LaserScan F) × OradarLidarRuntime D W) → Type 0
  TellsRound r none = Unit
  TellsRound r (some x) = Told r x

  read_round-Tells :
      (r : OradarLidarRuntime D W)
      → r.has_handler ≡ true
      → TellsRound r (read_round doubles client clock stamps ops r)
  unfolding read_round
  read_round-Tells r h =
      both_branches (TellsRound r) (not r.reading || not r.has_client) none _ tt
        (read_scan-Told _ r h)

  none-Told : (r : OradarLidarRuntime D W) → Told {F = F} r ([], r)
  none-Told r = (
    (refl, refl, refl, refl),
    nothing_emitted F r.connected_event_emitted,
    omega (arith, nothing_announced F r.connected_event_emitted),
  )

  go_on-Told :
      (rest : OradarLidarRuntime D W → List (LaserScan F) × OradarLidarRuntime D W)
      (r : OradarLidarRuntime D W) (x : Option (List (LaserScan F) × OradarLidarRuntime D W))
      → ((s : OradarLidarRuntime D W) → s.has_handler ≡ true → Told s (rest s))
      → r.has_handler ≡ true
      → TellsRound r x
      → Told r (go_on doubles client clock stamps ops rest r x)
  go_on-Told rest r none ih h t = none-Told r
  go_on-Told rest r (some (scans, s)) ih h t =
      let (more, end) = rest s in Told-append r s end scans more t (ih s (t.0.3 ∙ h))

  read_loop-Told :
      (n : ℕ) (r : OradarLidarRuntime D W)
      → r.has_handler ≡ true
      → Told r (read_loop doubles client clock stamps ops n r)
  unfolding read_loop
  read_loop-Told zero r h = none-Told r
  read_loop-Told (suc n) r h =
      go_on-Told (λ s. read_loop doubles client clock stamps ops n s) r _
        (λ s g. read_loop-Told n s g) h (read_round-Tells r h)

  -- However many rounds the reader goes through, with an event handler there: it leaves the
  -- lifecycle's state, the client and the handler as they were, and the event that the stream is
  -- online is emitted once if a scan was published and the stream was not announced before, and
  -- not at all otherwise.
  pub read_loop-announces :
      (n : ℕ) (r : OradarLidarRuntime D W)
      → r.has_handler ≡ true
      → let (scans, s) = read_loop doubles client clock stamps ops n r in
        Same r s
        × (announcements s.events
            ≡ announcements r.events + announced r.connected_event_emitted scans)
  read_loop-announces n r h = let told = read_loop-Told n r h in (told.0, told.2)
