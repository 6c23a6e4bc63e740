-- ===== src/Qos/Rate.antt =====
-- app/src-tauri/src/qos.rs: the frame rate that follows from the round-trip time.
use secure_desk.Base.{ℕ, zero, suc, ◌+◌, ◌*◌, ◌/◌, ◌≤◌, ◌<◌, ◌≡◌, arith, min}
use secure_desk.Qos.{
  QosManager, QualityLevel, low, balanced, best, Float, adjusted_fps, level_min_fps, max_fps,
  min_fps, adjust_parameters, record_rtt, add_sample, get_frame_interval_ms,
}

pub record IsRate (fps : ℕ) : Type 0 where
  pub least : min_fps ≤ fps
  pub most : fps ≤ max_fps

level_min_fps-IsRate : (l : QualityLevel) → IsRate (level_min_fps l)
level_min_fps-IsRate low = omega arith
level_min_fps-IsRate balanced = omega arith
level_min_fps-IsRate best = omega arith

adjusted_fps-IsRate :
    (rtt least fps : ℕ) → IsRate least → IsRate fps → IsRate (adjusted_fps rtt least fps)
unfolding adjusted_fps
adjusted_fps-IsRate rtt least fps h k = ground arith

interval_lower : (fps : ℕ) → IsRate fps → 16 ≤ 1000 / fps
interval_lower fps h = grind arith

interval_upper : (fps : ℕ) → IsRate fps → 1000 / fps ≤ 200
interval_upper fps h = grind arith

-- From a rate between 5 and 60 that is not below the level's least rate, a longer round-trip time
-- never gives a higher rate.
pub adjusted_fps_antitone :
    (r s fps : ℕ) (l : QualityLevel)
    → r ≤ s
    → IsRate fps
    → level_min_fps l ≤ fps
    → adjusted_fps s (level_min_fps l) fps ≤ adjusted_fps r (level_min_fps l) fps
unfolding adjusted_fps
adjusted_fps_antitone r s fps l h k least =
    antitone r s fps (level_min_fps l) h k (level_min_fps-IsRate l) least
  where
    antitone :
        (r s fps least : ℕ)
        → r ≤ s
        → IsRate fps
        → IsRate least
        → least ≤ fps
        → adjusted_fps s least fps ≤ adjusted_fps r least fps
    antitone r s fps least h k m n = ground arith

module _ {W : Type 0} (f : Float W) where
  -- A round-trip time keeps a frame rate that lies between 5 and 60 in that range.
  pub record_rtt-IsRate :
      (rtt_ms now : ℕ) (q : QosManager W)
      → IsRate q.current_fps
      → IsRate (record_rtt f rtt_ms now q).current_fps
  unfolding record_rtt adjust_parameters
  record_rtt-IsRate rtt_ms now q h = ground (
    arith,
    adjusted_fps-IsRate (add_sample rtt_ms now q.rtt_tracker).smoothed_rtt
        (level_min_fps q.target_quality) q.current_fps (level_min_fps-IsRate q.target_quality) h,
  )

  -- With a frame rate between 5 and 60 the interval lies between 16 and 200 milliseconds.
  pub get_frame_interval_ms_bounds :
      (q : QosManager W)
      → IsRate q.current_fps
      → (16 ≤ get_frame_interval_ms f q) × (get_frame_interval_ms f q ≤ 200)
  unfolding get_frame_interval_ms
  get_frame_interval_ms_bounds q h =
      (interval_lower q.current_fps h, interval_upper q.current_fps h)

  -- Adjustments with no new round-trip time in between.
  abbrev pub adjust_times : ℕ → QosManager W → QosManager W
  adjust_times zero q = q
  adjust_times (suc n) q = adjust_times n (adjust_parameters f q)

  -- While the smoothed time stays below 50 milliseconds, n adjustments raise a rate of at most 60
  -- by 5 each, up to 60.
  pub adjust_times-current_fps :
      (n : ℕ) (q : QosManager W)
      → q.rtt_tracker.smoothed_rtt < 50
      → q.current_fps ≤ max_fps
      → (adjust_times n q).current_fps ≡ min (q.current_fps + 5 * n) max_fps
  unfolding adjust_parameters
  adjust_times-current_fps zero q h k = omega arith
  adjust_times-current_fps (suc n) q h k =
      let raised : (adjust_parameters f q).current_fps ≡ min (q.current_fps + 5) max_fps =
        ground arith in
      omega (
        arith,
        adjust_times-current_fps n (adjust_parameters f q) h (omega (arith, raised)),
        raised,
      )
