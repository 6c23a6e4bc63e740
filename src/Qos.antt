-- ===== src/Qos.antt =====
-- app/src-tauri/src/qos.rs: the round-trip times, and the frame rate and quality that follow from them.
-- `Instant::now()` is an argument, in nanoseconds; `f32` is a parameter.
pub mod Rtt
pub mod Rate
pub mod Frames
mod Tests
use Prim.Native.String.{String}
use secure_desk.Base.{
  ℕ, ◌+◌, ◌-◌, ◌*◌, ◌/◌, ◌%◌, ◌^◌, Bool, List, [], ◌∷◌, ◌++◌, leb, ltb, if◌then◌else◌, length, min,
  max,
}

-- What the code does with `f32`: `decimal n` is the literal of n hundredths; `to_u8` is the cast, which cuts and saturates.
pub record Float (W : Type 0) : Type 0 where
  pub decimal : ℕ → W
  pub add : W → W → W
  pub mul : W → W → W
  pub least : W → W → W
  pub greatest : W → W → W
  pub of_u8 : ℕ → W
  pub to_u8 : W → ℕ

abbrev pub init_fps : ℕ
init_fps = 15

abbrev pub min_fps : ℕ
min_fps = 5

abbrev pub max_fps : ℕ
max_fps = 60

abbrev pub rtt_window_size : ℕ
rtt_window_size = 60

pub data QualityLevel : Type 0 where
  low balanced best : QualityLevel

abbrev pub level_jpeg_quality : QualityLevel → ℕ
level_jpeg_quality low = 50
level_jpeg_quality balanced = 75
level_jpeg_quality best = 95

abbrev pub level_min_fps : QualityLevel → ℕ
level_min_fps low = 12
level_min_fps balanced = 10
level_min_fps best = 8

-- The oldest sample stands first.
pub record RttTracker : Type 0 where
  pub samples : List ℕ
  pub smoothed_rtt : ℕ
  pub min_rtt : ℕ
  pub last_update : ℕ

unfoldable pub new_tracker : ℕ → RttTracker
new_tracker now = record {
  samples = [];
  smoothed_rtt = 50;
  min_rtt = 2 ^ 32 - 1;
  last_update = now;
}

-- `pop_front`
abbrev pub pop_front {ℓ} : {A : Type ℓ} → List A → List A
pop_front [] = []
pop_front (x ∷ xs) = xs

-- `iter().min().copied().unwrap_or(default)`
abbrev pub min_or : ℕ → List ℕ → ℕ
min_or default [] = default
min_or default (x ∷ []) = x
min_or default (x ∷ y ∷ xs) = min x (min_or default (y ∷ xs))

-- The sum of the two minima is one of `u32`, which wraps in a release build.
unfoldable pub add_sample : ℕ → ℕ → RttTracker → RttTracker
add_sample rtt_ms now t =
    let kept = if leb rtt_window_size (length t.samples) then pop_front t.samples else t.samples in
    let samples' = kept ++ (rtt_ms ∷ []) in
    let min' = if ltb rtt_ms t.min_rtt then rtt_ms else t.min_rtt in
    record {
      samples = samples';
      smoothed_rtt = (min' + min_or rtt_ms samples') % 2 ^ 32 / 2;
      min_rtt = min';
      last_update = now;
    }

-- `elapsed() > Duration::from_secs(5)`; a clock that stands before the instant gives 0.
unfoldable pub is_stale : ℕ → RttTracker → Bool
is_stale now t = ltb (5 * 10 ^ 9) (now - t.last_update)

pub record QosManager (W : Type 0) : Type 0 where
  pub rtt_tracker : RttTracker
  pub current_fps : ℕ
  pub target_quality : QualityLevel
  pub quality_ratio : W
  pub frame_times : List ℕ
  pub last_adjustment : ℕ

pub record QosStats (W : Type 0) : Type 0 where
  pub rtt_ms : ℕ
  pub target_fps : ℕ
  pub actual_fps : ℕ
  pub quality_ratio : W
  pub jpeg_quality : ℕ
  pub network_quality : String

-- The two targets of an adjustment: of the frame rate, by the smoothed time, the least rate of the
-- quality level, and the rate so far.
unfoldable pub adjusted_fps : ℕ → ℕ → ℕ → ℕ
adjusted_fps rtt least fps =
    if ltb rtt 50
    then min (fps + 5) max_fps
    else if ltb rtt 100
    then min (fps + 2) max_fps
    else if ltb rtt 150
    then max fps least
    else if ltb rtt 200
    then max (fps - 2) least
    else if ltb rtt 300
    then max (fps - 5) min_fps
    else min_fps

unfoldable pub network_quality_of : ℕ → String
network_quality_of rtt =
    if ltb rtt 50
    then "Excellent"
    else if ltb rtt 100
    then "Good"
    else if ltb rtt 150
    then "Fair"
    else if ltb rtt 300
    then "Poor"
    else "Bad"

-- The samples of more than a second before `now`, at the front, are dropped.
unfoldable pub drop_old : ℕ → List ℕ → List ℕ
drop_old now [] = []
drop_old now (t ∷ ts) =
    let rest = drop_old now ts in if ltb (10 ^ 9) (now - t) then rest else t ∷ ts

module _ {W : Type 0} (f : Float W) where
  open f use {decimal, add, mul, least, greatest, of_u8, to_u8}

  unfoldable pub new_manager : ℕ → QosManager W
  unfolding new_tracker
  new_manager now = record {
    rtt_tracker = new_tracker now;
    current_fps = init_fps;
    target_quality = balanced;
    quality_ratio = decimal 100;
    frame_times = [];
    last_adjustment = now;
  }

  abbrev adjusted_ratio : ℕ → W → W
  adjusted_ratio rtt ratio =
      if ltb rtt 50
      then least (add ratio (decimal 15)) (decimal 100)
      else if ltb rtt 100
      then least (add ratio (decimal 10)) (decimal 100)
      else if ltb rtt 150
      then least (add ratio (decimal 5)) (decimal 100)
      else if ltb rtt 200
      then greatest (mul ratio (decimal 95)) (decimal 50)
      else if ltb rtt 300
      then greatest (mul ratio (decimal 90)) (decimal 40)
      else greatest (mul ratio (decimal 85)) (decimal 30)

  unfoldable pub adjust_parameters : QosManager W → QosManager W
  unfolding adjusted_fps
  adjust_parameters q =
      let rtt = q.rtt_tracker.smoothed_rtt in
      record q {
        current_fps = adjusted_fps rtt (level_min_fps q.target_quality) q.current_fps;
        quality_ratio = adjusted_ratio rtt q.quality_ratio;
      }

  unfoldable pub set_quality : QualityLevel → QosManager W → QosManager W
  set_quality quality q = record q { target_quality = quality }

  -- The parameters follow at most every 500 milliseconds.
  unfoldable pub record_rtt : ℕ → ℕ → QosManager W → QosManager W
  unfolding add_sample adjust_parameters
  record_rtt rtt_ms now q =
      let q' = record q { rtt_tracker = add_sample rtt_ms now q.rtt_tracker } in
      if ltb (500 * 10 ^ 6) (now - q.last_adjustment)
      then record (adjust_parameters q') { last_adjustment = now }
      else q'

  unfoldable pub record_frame : ℕ → QosManager W → QosManager W
  unfolding drop_old
  record_frame now q = record q { frame_times = drop_old now q.frame_times ++ (now ∷ []) }

  unfoldable pub get_actual_fps : QosManager W → ℕ
  get_actual_fps q = length q.frame_times

  -- A division, by a rate that must not be 0.
  unfoldable pub get_frame_interval_ms : QosManager W → ℕ
  get_frame_interval_ms q = 1000 / q.current_fps

  unfoldable pub get_jpeg_quality : QosManager W → ℕ
  get_jpeg_quality q = to_u8 (mul (of_u8 (level_jpeg_quality q.target_quality)) q.quality_ratio)

  unfoldable pub get_stats : QosManager W → QosStats W
  unfolding get_actual_fps get_jpeg_quality network_quality_of
  get_stats q = record {
    rtt_ms = q.rtt_tracker.smoothed_rtt;
    target_fps = q.current_fps;
    actual_fps = get_actual_fps q;
    quality_ratio = q.quality_ratio;
    jpeg_quality = get_jpeg_quality q;
    network_quality = network_quality_of q.rtt_tracker.smoothed_rtt;
  }
