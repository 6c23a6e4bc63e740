-- ===== src/Base/Outcome.antt =====
-- What a call of the program gives: a value, an error that it reports, or a panic, as an index or a
-- slice out of range does.
use Prim.Native.Nat.{ℕ, ◌+◌, ◌-◌, ◌≤◌, ◌<◌}
use mathlib.Core.Path.{◌≡◌, refl, ap, ◌∙◌}
use mathlib.Core.Logic.{◌≢◌}
use mathlib.Core.Bool.{Bool, true, false, ◌&&◌}
use mathlib.Core.Option.{none, some}
use mathlib.Core.List.{List, ◌++◌}
use native.Mathlib.Omega.{arith}
use secure_desk.Base.Tests.{if◌then◌else◌, leb}
use secure_desk.Base.Lists.{
  length, get_elem?, get_or, take, drop, get_elem?-lt, get_elem?-append, length-append,
  drop-length_append, take-length_append,
}

pub data Outcome {ℓ} (E : Type 0) (A : Type ℓ) : Type ℓ where
  ok : A → Outcome E A
  err : E → Outcome E A
  panic : Outcome E A

infixl 5 ◌>>=◌ ◌>>◌
abbrev pub ◌>>=◌ {ℓ κ} :
    {E : Type 0} {A : Type ℓ} {B : Type κ} → Outcome E A → (A → Outcome E B) → Outcome E B
ok a >>= f = f a
err e >>= f = err e
panic >>= f = panic

abbrev pub ◌>>◌ {ℓ} : {E : Type 0} {B : Type ℓ} → Outcome E (Unit {0}) → Outcome E B → Outcome E B
m >> k = m >>= λ _. k

-- `xs[i]`
abbrev pub at {ℓ} : {E : Type 0} {A : Type ℓ} → List A → ℕ → Outcome E A
at xs i = elim (get_elem? xs i) [ none ↦ panic | some a ↦ ok a ]

-- `xs[i..]`
abbrev pub slice_from {ℓ} : {E : Type 0} {A : Type ℓ} → List A → ℕ → Outcome E (List A)
slice_from xs i = if leb i (length xs) then ok (drop i xs) else panic

-- `xs[i..j]`
abbrev pub slice {ℓ} : {E : Type 0} {A : Type ℓ} → List A → ℕ → ℕ → Outcome E (List A)
slice xs i j = if leb i j && leb j (length xs) then ok (take (j - i) (drop i xs)) else panic

module _ {E : Type 0} where
  pub at-lt : (xs : List ℕ) (i : ℕ) → i < length xs → at {E = E} xs i ≡ ok (get_or xs i 0)
  at-lt xs i h = ground (arith, get_elem?-lt xs i 0)

  pub slice_from-le :
      (xs : List ℕ) (i : ℕ) → i ≤ length xs → slice_from {E = E} xs i ≡ ok (drop i xs)
  slice_from-le xs i h = ground arith

  pub slice-le :
      (xs : List ℕ) (i j : ℕ)
      → i ≤ j
      → j ≤ length xs
      → slice {E = E} xs i j ≡ ok (take (j - i) (drop i xs))
  slice-le xs i j h k = ground arith

-- The call returns, with a value or with an error that it reports.
abbrev pub Returns {ℓ} : {E : Type 0} {A : Type ℓ} → Outcome E A → Type 0
Returns (ok a) = Unit
Returns (err e) = Unit
Returns panic = ⊥

pub Returns-bind {ℓ κ} :
    {E : Type 0} {A : Type ℓ} {B : Type κ} (m : Outcome E A) (f : A → Outcome E B)
    → Returns m
    → ((a : A) → Returns (f a))
    → Returns (m >>= f)
Returns-bind (ok a) f h k = k a
Returns-bind (err e) f h k = tt
Returns-bind panic f h k = h

-- Inversion of a successful chain.
pub >>=-eq-ok {ℓ κ} :
    {E : Type 0} {A : Type ℓ} {B : Type κ} (first : Outcome E A) (second : A → Outcome E B)
    {made : B}
    → (first >>= second) ≡ ok made
    → (got : A) × (first ≡ ok got) × (second got ≡ ok made)
>>=-eq-ok panic second e = cc
>>=-eq-ok (err x) second e = cc
>>=-eq-ok (ok got) second e = (got, refl, e)

-- Rules for `Returns`, one for each construct.
pub Returns-if {ℓ} :
    {E : Type 0} {A : Type ℓ} (b : Bool) (x y : Outcome E A)
    → (b ≡ true → Returns x)
    → (b ≡ false → Returns y)
    → Returns (if b then x else y)
Returns-if true x y h k = h refl
Returns-if false x y h k = k refl

module _ {ℓ} {E : Type 0} {A : Type ℓ} where
  pub Returns-at :
      (xs : List ℕ) (i : ℕ) (f : ℕ → Outcome E A)
      → i < length xs
      → ((a : ℕ) → Returns (f a))
      → Returns (at xs i >>= f)
  Returns-at xs i f h k = rw (at-lt {E = E} xs i h) (k (get_or xs i 0))

  pub Returns-slice :
      (xs : List ℕ) (i j : ℕ) (f : List ℕ → Outcome E A)
      → i ≤ j
      → j ≤ length xs
      → ((ys : List ℕ) → Returns (f ys))
      → Returns (slice xs i j >>= f)
  Returns-slice xs i j f h h' k = rw (slice-le {E = E} xs i j h h') (k (take (j - i) (drop i xs)))

  pub Returns-slice_from :
      (xs : List ℕ) (i : ℕ) (f : List ℕ → Outcome E A)
      → i ≤ length xs
      → ((ys : List ℕ) → Returns (f ys))
      → Returns (slice_from xs i >>= f)
  Returns-slice_from xs i f h k = rw (slice_from-le {E = E} xs i h) (k (drop i xs))

-- Reads behind a prefix.
module _ {E : Type 0} where
  pub at-append :
      (pre xs : List ℕ) (n i : ℕ) → n ≡ length pre + i → at {E = E} (pre ++ xs) n ≡ at xs i
  at-append pre xs n i h = rw (get_elem?-append pre xs n i h, at)

  pub slice-append :
      (pre v rest : List ℕ) (i j : ℕ)
      → i ≡ length pre
      → j ≡ i + length v
      → slice {E = E} (pre ++ (v ++ rest)) i j ≡ ok v
  slice-append pre v rest i j hi hj =
      let width : j - i ≡ length v = omega arith in
      let behind : drop i (pre ++ (v ++ rest)) ≡ v ++ rest =
        ap (λ (n : ℕ). drop n (pre ++ (v ++ rest))) hi ∙ drop-length_append pre (v ++ rest) in
      slice-le {E = E} (pre ++ (v ++ rest)) i j (omega arith)
        (omega (arith, length-append pre (v ++ rest), length-append v rest))
      ∙ rw (width, behind) (ap ok (take-length_append v rest))

-- Rules for what a call does not report.
pub bind-ne-err {ℓ κ} :
    {E : Type 0} {A : Type ℓ} {B : Type κ} (e : E) (m : Outcome E A) (f : A → Outcome E B)
    → m ≢ err e
    → ((a : A) → f a ≢ err e)
    → (m >>= f) ≢ err e
bind-ne-err {E} {A} {B} e (ok a) f h k = k a
bind-ne-err {E} {A} {B} e (err x) f h k = λ p. h (err_again x e p)
  where
    err_again :
        (x e : E) → ◌≡◌ {A = Outcome E B} (err x) (err e) → ◌≡◌ {A = Outcome E A} (err x) (err e)
    err_again x e p = cc
bind-ne-err {E} {A} {B} e panic f h k = λ p. cc

pub if-ne-err {ℓ} :
    {E : Type 0} {A : Type ℓ} (e : E) (b : Bool) (x y : Outcome E A)
    → (b ≡ true → x ≢ err e)
    → (b ≡ false → y ≢ err e)
    → (if b then x else y) ≢ err e
if-ne-err e true x y h k = h refl
if-ne-err e false x y h k = k refl
