-- ===== src/Qos/Frames.antt =====
-- app/src-tauri/src/qos.rs: the frames of the last second.
use secure_desk.Base.{
  ℕ, ◌+◌, ◌-◌, ◌≤◌, ◌^◌, ◌≡◌, refl, ap, sym, List, [], ◌∷◌, ◌++◌, arith, ltb, if◌then◌else◌, length,
  length-append, All-append, All, Bool-cases, inl, inr, ltb→le, le→ltb,
}
use secure_desk.Qos.{QosManager, Float, drop_old, record_frame, get_actual_fps}

-- Times in the order in which they were taken.
abbrev pub Sorted : List ℕ → Type 0
Sorted [] = Unit
Sorted (t ∷ ts) = All (λ u. t ≤ u) ts × Sorted ts

-- The times of at most a second before `now`, wherever they stand.
abbrev pub recent : ℕ → List ℕ → List ℕ
recent now [] = []
recent now (t ∷ ts) = if ltb (10 ^ 9) (now - t) then recent now ts else t ∷ recent now ts

recent-All : (now t : ℕ) (ts : List ℕ) → now - t ≤ 10 ^ 9 → All (λ u. t ≤ u) ts → recent now ts ≡ ts
recent-All now t [] h k = refl
recent-All now t (u ∷ us) h k =
    rw (le→ltb (10 ^ 9) (now - u) (omega (arith, k.0)))
      (ap (λ r. u ∷ r) (recent-All now t us h k.1))

drop_old-recent : (now : ℕ) (ts : List ℕ) → Sorted ts → drop_old now ts ≡ recent now ts
unfolding drop_old
drop_old-recent now [] h = refl
drop_old-recent now (t ∷ ts) h = elim (Bool-cases (ltb (10 ^ 9) (now - t))) [
  | inl old ↦ rw old (drop_old-recent now ts h.1)
  | inr young ↦ rw young (ap (λ r. t ∷ r) (sym (recent-All now t ts (ltb→le _ _ young) h.0)))
]

Sorted-snoc :
    (now : ℕ) (ts : List ℕ) → Sorted ts → All (λ t. t ≤ now) ts → Sorted (ts ++ (now ∷ []))
Sorted-snoc now [] h k = (tt, tt)
Sorted-snoc now (t ∷ ts) h k =
    (All-append (λ u. t ≤ u) ts (now ∷ []) h.0 (k.0, tt), Sorted-snoc now ts h.1 k.1)

drop_old-Sorted :
    (now bound : ℕ) (ts : List ℕ)
    → Sorted ts
    → All (λ t. t ≤ bound) ts
    → Sorted (drop_old now ts) × All (λ t. t ≤ bound) (drop_old now ts)
unfolding drop_old
drop_old-Sorted now bound [] h k = (tt, tt)
drop_old-Sorted now bound (t ∷ ts) h k = elim (Bool-cases (ltb (10 ^ 9) (now - t))) [
  | inl old ↦ rw old (drop_old-Sorted now bound ts h.1 k.1)
  | inr young ↦ rw young (h, k)
]

module _ {W : Type 0} (f : Float W) where
  -- Where the frame times were taken in order, the frame counter after a frame counts this frame and all
  -- the earlier ones of the last second, and no others.
  pub get_actual_fps-record_frame :
      (now : ℕ) (q : QosManager W)
      → Sorted q.frame_times
      → get_actual_fps f (record_frame f now q) ≡ length (recent now q.frame_times) + 1
  unfolding get_actual_fps record_frame
  get_actual_fps-record_frame now q h = omega (
    arith,
    length-append (drop_old now q.frame_times) (now ∷ []),
    ap length (drop_old-recent now q.frame_times h),
  )

  -- A frame keeps the times in order, given that none is later than now.
  pub record_frame-Sorted :
      (now : ℕ) (q : QosManager W)
      → Sorted q.frame_times
      → All (λ t. t ≤ now) q.frame_times
      → Sorted (record_frame f now q).frame_times
  unfolding record_frame
  record_frame-Sorted now q h k =
      let kept = drop_old-Sorted now now q.frame_times h k in
      Sorted-snoc now (drop_old now q.frame_times) kept.0 kept.1
