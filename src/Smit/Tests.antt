-- ===== src/Smit/Tests.antt =====
-- The theorems of the lidar's byte stream on concrete inputs, with integers for floats.
use device_manager.Common.{
  Bool, true, refl, ◌%◌, leb, map, none, false≢true, ℕ, ◌+◌, ◌-◌, ◌*◌, ◌/◌, ◌<◌, false, List, [],
  ◌∷◌, ◌++◌, ◌≡◌, arith, length, ltb,
}
use device_manager.Smit.Protocol.{FloatOps, Cut, round, feed, max_frame_length}
use device_manager.Smit.Protocol.Chunks.{feed-settles, feed-append}
use device_manager.Smit.Protocol.Stream.{stream, contents, feed-stream}
use device_manager.Core.Runtime.{returns}
use device_manager.Drivers.Transport.{Serial, received}
use device_manager.Smit.Protocol.{SmitPoint, SmitPointPacket}
use device_manager.Smit.Scan.{
  DoubleOps, SmitScanAssembler, make_assembler, set_config, reset, is_full_circle_window,
  is_raw_angle_in_window, normalize_raw_angle,
}
use device_manager.Smit.Scan.Sweep.{setup_of, scan_of, stored, sweep_packets, add_packets, view}
use device_manager.Smit.Scan.Window.{Refines, add_packets-Refines}
use device_manager.Smit.Scan.Passes.{Pass, block, add_packets-passes}
use device_manager.Smit.Driver.{SmitLidarConfig}
use device_manager.Smit.Runtime.{Numbers}

abbrev whole : FloatOps ℕ
whole = record {
  from_int = λ n. n;
  add = ◌+◌;
  sub = ◌-◌;
  mul = ◌*◌;
  div = ◌/◌;
  less = ltb;
  hundredth = 1;
  ten_thousandth = 1;
  distance_scale = 1;
  below_delta_min = λ d. false;
  above_delta_max = λ d. false;
}

-- Noise and the first half of a frame; the second half.
abbrev first : List ℕ
first = 7 ∷ 0xA5 ∷ 0x5A ∷ 0 ∷ 3 ∷ 9 ∷ []

abbrev second : List ℕ
second = 1 ∷ 2 ∷ 0xA5 ∷ []

feed-settles_example :
    let rest = (feed whole [] first).1 in
    (round whole rest ≡ Cut.wait) × (length rest < max_frame_length)
feed-settles_example = feed-settles whole [] first

feed-append_example :
    let (ds, b) = feed whole [] first in
    let (es, b') = feed whole b second in feed whole [] (first ++ second) ≡ (ds ++ es, b')
feed-append_example = feed-append whole [] first second (omega arith)

-- A configuration payload that is too short, and one with an unknown message id.
abbrev payloads : List (List ℕ)
payloads = (2 ∷ 14 ∷ []) ∷ (9 ∷ 1 ∷ 2 ∷ []) ∷ []

feed-stream_example : feed whole [] (stream payloads) ≡ (contents whole payloads, [])
feed-stream_example = feed-stream whole payloads (omega arith, (omega arith, tt)) (omega arith)

abbrev degrees : DoubleOps ℕ ℕ
degrees = record {
  fmod = ◌%◌;
  add = ◌+◌;
  sub = ◌-◌;
  less = ltb;
  at_most = leb;
  zero_deg = 0;
  full_circle = 360;
  full_width = 359;
  widen = λ x. x;
  narrow = λ x. x;
}

abbrev point : ℕ → SmitPoint ℕ
point a = record { angle_deg = a; distance_m = 1; intensity = 2 }

abbrev packet : Bool → List ℕ → SmitPointPacket ℕ
packet ok angles = record { points = map point angles; timestamp = 0; crc_ok = ok }

abbrev quarter : SmitScanAssembler ℕ ℕ
quarter = set_config degrees 10 20000 (make_assembler degrees 90 180)

-- A turn through the window in two packets, and a bad packet.
abbrev packets : List (SmitPointPacket ℕ)
packets = packet true (10 ∷ 100 ∷ []) ∷ packet true (120 ∷ 200 ∷ 100 ∷ []) ∷ packet false [] ∷ []

add_packets-Refines_example :
    Refines degrees
      (setup_of degrees quarter)
      (add_packets degrees packets quarter)
      (sweep_packets degrees (setup_of degrees quarter) packets (view degrees quarter))
unfolding is_full_circle_window
add_packets-Refines_example =
    add_packets-Refines degrees packets quarter refl refl (λ e. absurd (false≢true e))

abbrev turn : Pass ℕ
turn = record {
  away = point 10;
  further_away = point 20 ∷ [];
  entry = point 100;
  further_in = point 120 ∷ [];
}

add_packets-passes_example :
    (add_packets degrees
      (packet true (10 ∷ 20 ∷ 100 ∷ []) ∷ packet true (120 ∷ 200 ∷ []) ∷ [])
      (reset degrees quarter)).0
    ≡ map
        (λ p. scan_of degrees (setup_of degrees quarter) (map (stored degrees) (block degrees p)))
        (turn ∷ [])
unfolding is_full_circle_window is_raw_angle_in_window normalize_raw_angle
add_packets-passes_example =
    add_packets-passes degrees quarter
      (packet true (10 ∷ 20 ∷ 100 ∷ []) ∷ packet true (120 ∷ 200 ∷ []) ∷ []) (turn ∷ []) (point 200)
      [] refl refl (refl, (refl, tt)) refl (((refl, (refl, tt)), (refl, (refl, tt))), tt) (refl, tt)

abbrev port : Serial (SmitLidarConfig ℕ) ℕ
port = record {
  create = λ c w. (returns tt, w);
  open_port = λ name baud w. (none, w);
  close_port = λ w. w;
  is_open = λ w. true;
  read = λ n w. (received [], w);
  now = λ w. (w, w);
  spawn = λ w. (returns tt, w);
  join_thread = λ w. w;
  sleep = λ n w. w;
}

abbrev numbers : Numbers ℕ
numbers = record { from_bits = λ b. b; from_int = λ n. n }
