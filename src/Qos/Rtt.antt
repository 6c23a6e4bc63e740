-- ===== src/Qos/Rtt.antt =====
-- app/src-tauri/src/qos.rs: the window of round-trip times and the smoothed time.
use secure_desk.Base.{
  ℕ, ◌-◌, ◌≤◌, ◌<◌, ◌^◌, Bool, true, false, List, [], ◌∷◌, ◌++◌, arith, leb, ltb, if◌then◌else◌,
  length, All, All-append, length-append,
}
use secure_desk.Qos.{RttTracker, add_sample, pop_front, min_or, rtt_window_size}

-- The window is bounded, and the minimum is below every sample in it.
pub record IsValid (t : RttTracker) : Type 0 where
  pub bounded : length t.samples ≤ rtt_window_size
  pub below : All (λ s. t.min_rtt ≤ s) t.samples

All-le_trans : (a b : ℕ) (xs : List ℕ) → a ≤ b → All (λ s. b ≤ s) xs → All (λ s. a ≤ s) xs
All-le_trans a b [] h k = tt
All-le_trans a b (x ∷ xs) h k = (omega (arith, k.0), All-le_trans a b xs h k.1)

All-pop_front : (a : ℕ) (xs : List ℕ) → All (λ s. a ≤ s) xs → All (λ s. a ≤ s) (pop_front xs)
All-pop_front a [] h = tt
All-pop_front a (x ∷ xs) h = h.1

length-pop_front : (xs : List ℕ) → length (pop_front xs) ≤ length xs - 1
length-pop_front [] = omega arith
length-pop_front (x ∷ xs) = omega arith

min_or-le : (d a : ℕ) (xs : List ℕ) → min_or d (xs ++ (a ∷ [])) ≤ a
min_or-le d a [] = omega arith
min_or-le d a (x ∷ []) = omega arith
min_or-le d a (x ∷ y ∷ xs) = omega (arith, min_or-le d a (y ∷ xs))

le-min_or : (d m : ℕ) (xs : List ℕ) → m ≤ d → All (λ s. m ≤ s) xs → m ≤ min_or d xs
le-min_or d m [] h k = h
le-min_or d m (x ∷ []) h k = k.0
le-min_or d m (x ∷ y ∷ xs) h k = omega (arith, k.0, le-min_or d m (y ∷ xs) h k.1)

All-kept :
    (a : ℕ) (b : Bool) (xs : List ℕ)
    → All (λ s. a ≤ s) xs
    → All (λ s. a ≤ s) (if b then pop_front xs else xs)
All-kept a true xs h = All-pop_front a xs h
All-kept a false xs h = h

-- A sample keeps a valid tracker valid: the window within 60 samples and the minimum below every
-- sample of the window.
pub add_sample-IsValid :
    (rtt_ms now : ℕ) (t : RttTracker) → IsValid t → IsValid (add_sample rtt_ms now t)
unfolding add_sample
add_sample-IsValid rtt_ms now t v =
    let full = leb rtt_window_size (length t.samples) in
    let kept = if full then pop_front t.samples else t.samples in
    let least = if ltb rtt_ms t.min_rtt then rtt_ms else t.min_rtt in
    let below_min : least ≤ t.min_rtt = ground arith in
    let below_new : least ≤ rtt_ms = ground arith in
    record {
      bounded = ground (arith, length-append kept (rtt_ms ∷ []), length-pop_front t.samples);
      below =
          All-append (λ s. least ≤ s) kept (rtt_ms ∷ [])
            (All-le_trans least t.min_rtt kept below_min
              (All-kept t.min_rtt full t.samples v.below))
            (below_new, tt);
    }

-- On a valid tracker, the smoothed time after a sample lies between the least time seen and that sample,
-- for times below 2 ^ 31 (beyond them the sum in `u32` may wrap).
pub add_sample-smoothed_rtt :
    (rtt_ms now : ℕ) (t : RttTracker)
    → IsValid t
    → rtt_ms < 2 ^ 31
    → ((add_sample rtt_ms now t).min_rtt ≤ (add_sample rtt_ms now t).smoothed_rtt)
      × ((add_sample rtt_ms now t).smoothed_rtt ≤ rtt_ms)
unfolding add_sample
add_sample-smoothed_rtt rtt_ms now t v small =
    let kept = if leb rtt_window_size (length t.samples) then pop_front t.samples else t.samples in
    let least = if ltb rtt_ms t.min_rtt then rtt_ms else t.min_rtt in
    let below_new : least ≤ rtt_ms = ground arith in
    let upper = min_or-le rtt_ms rtt_ms kept in
    let lower =
      le-min_or rtt_ms least (kept ++ (rtt_ms ∷ [])) below_new
        (add_sample-IsValid rtt_ms now t v).below in
    omega (arith, upper, lower, below_new)
