-- ===== src/Qos/Tests.antt =====
-- Runs of app/src-tauri/src/qos.rs, with hundredths in place of `f32`, and its theorems at a concrete manager.
use secure_desk.Base.{ℕ, ◌+◌, ◌*◌, ◌/◌, ◌^◌, ◌≡◌, refl, [], ◌∷◌, arith, min, max}
use secure_desk.Qos.{
  Float, QosManager, RttTracker, low, new_tracker, add_sample, new_manager, adjusted_fps,
  adjust_parameters, record_rtt, get_jpeg_quality, level_min_fps,
}
use secure_desk.Qos.Rtt.{IsValid}
use secure_desk.Qos.Rate.{IsRate}

abbrev hundredths : Float ℕ
hundredths = record {
  decimal = λ n. n;
  add = λ a b. a + b;
  mul = λ a b. a * b / 100;
  least = λ a b. min a b;
  greatest = λ a b. max a b;
  of_u8 = λ n. n * 100;
  to_u8 = λ w. min (w / 100) 255;
}

abbrev second : ℕ
second = 10 ^ 9

abbrev fresh : QosManager ℕ
fresh = new_manager hundredths 0

-- A time of 30 milliseconds after a second raises the rate from 15.
rate_rises : (record_rtt hundredths 30 second fresh).current_fps ≡ 20
unfolding record_rtt add_sample adjust_parameters adjusted_fps new_manager new_tracker
rate_rises = refl

-- In the band of 150 to 200 milliseconds a rate below the level's least rate rises.
poor_rises : adjusted_fps 160 (level_min_fps low) 5 ≡ 12
unfolding adjusted_fps
poor_rises = refl

quality : get_jpeg_quality hundredths fresh ≡ 75
unfolding get_jpeg_quality new_manager new_tracker
quality = refl

abbrev window : RttTracker
window = record { samples = 40 ∷ 70 ∷ []; smoothed_rtt = 40; min_rtt = 40; last_update = 0 }

window-IsValid : IsValid window
window-IsValid = record { bounded = omega arith; below = (omega arith, (omega arith, tt)) }

fifteen-IsRate : IsRate 15
fifteen-IsRate = record { least = omega arith; most = omega arith }

abbrev running : QosManager ℕ
running = record {
  rtt_tracker = window;
  current_fps = 15;
  target_quality = low;
  quality_ratio = 100;
  frame_times = 0 ∷ second ∷ [];
  last_adjustment = 0;
}
