-- ===== src/Capture/Loops.antt =====
-- Loops that push: what they collect when no round panics, and where the pushes of a round are.
use secure_desk.Base.{
  ℕ, zero, suc, ◌+◌, ◌*◌, ◌≤◌, ◌<◌, ◌≡◌, refl, ap, ◌∙◌, List, [], ◌∷◌, ◌++◌, length, get_elem?,
  get_elem?-append, length-append, arith,
}
use secure_desk.Base.Outcome.{Outcome, ok}
use secure_desk.Capture.{for_range}

-- The pushes of `count` rounds, one after the other
abbrev pub collect : (ℕ → List ℕ) → ℕ → ℕ → List ℕ
collect pushed start zero = []
collect pushed start (suc count) = pushed start ++ collect pushed (suc start) count

module _ {E : Type 0} (round : ℕ → Outcome E (List ℕ)) (pushed : ℕ → List ℕ) where
  pub for_range-collect :
      (start count : ℕ)
      → ((x : ℕ) → x < start + count → round x ≡ ok (pushed x))
      → for_range round start count ≡ ok (collect pushed start count)
  for_range-collect start zero h = refl
  for_range-collect start (suc count) h =
      rw (h start (omega arith), for_range-collect (suc start) count (λ x below. h x (omega arith)))
        refl

pub for_range_eq :
    {E : Type 0} (f g : ℕ → Outcome E (List ℕ)) (start count : ℕ)
    → ((x : ℕ) → x < start + count → f x ≡ g x)
    → for_range f start count ≡ for_range g start count
for_range_eq f g start zero h = refl
for_range_eq f g start (suc count) h =
    rw (h start (omega arith), for_range_eq f g (suc start) count (λ x below. h x (omega arith)))
      refl

pub get_elem?-append_lt :
    (xs ys : List ℕ) (i : ℕ) → i < length xs → get_elem? (xs ++ ys) i ≡ get_elem? xs i
get_elem?-append_lt [] ys i h = absurd (omega arith)
get_elem?-append_lt (x ∷ xs) ys zero h = refl
get_elem?-append_lt (x ∷ xs) ys (suc i) h = get_elem?-append_lt xs ys i (omega arith)

-- Rounds that push `k` values each
module _ (pushed : ℕ → List ℕ) (k : ℕ) (same : (x : ℕ) → length (pushed x) ≡ k) where
  pub length-collect : (start count : ℕ) → length (collect pushed start count) ≡ count * k
  length-collect start zero = omega arith
  length-collect start (suc count) =
      length-append (pushed start) (collect pushed (suc start) count)
      ∙ omega (arith, same start, length-collect (suc start) count)

  pub get_elem?-collect :
      (start count j c n x : ℕ)
      → n ≡ j * k + c
      → x ≡ start + j
      → j < count
      → c < k
      → get_elem? (collect pushed start count) n ≡ get_elem? (pushed x) c
  get_elem?-collect start zero j c n x en ex h h' = absurd (omega arith)
  get_elem?-collect start (suc count) zero c n x en ex h h' =
      let here : n ≡ c = omega arith in
      let first : start ≡ x = omega arith in
      get_elem?-append_lt (pushed start) (collect pushed (suc start) count) n
        (omega (arith, same start))
      ∙ (ap (get_elem? (pushed start)) here ∙ ap (λ s. get_elem? (pushed s) c) first)
  get_elem?-collect start (suc count) (suc j) c n x en ex h h' =
      get_elem?-append (pushed start) (collect pushed (suc start) count) n (j * k + c)
        (omega (arith, same start))
      ∙ get_elem?-collect (suc start) count j c (j * k + c) x refl (omega arith) (omega arith) h'

-- The last byte of a row lies before the next row.
pub row_le : (y h p : ℕ) → y < h → y * p + p ≤ h * p
row_le y zero p below = absurd (omega arith)
row_le zero (suc h) p below = omega arith
row_le (suc y) (suc h) p below = omega (arith, row_le y h p (omega arith))
