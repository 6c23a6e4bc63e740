-- ===== src/Base/Utf8.antt =====
-- `String::from_utf8_lossy`: a text is the list of its UTF-8 bytes, and each longest part of the input
-- that begins no character becomes U+FFFD, which is EF BF BD.
use secure_desk.Base.Tests.{leb, ltb, if◌then◌else◌, ◌==◌}
use Prim.Native.Nat.{ℕ, ◌-◌}
use mathlib.Core.Path.{◌≡◌}
use mathlib.Core.Bool.{Bool, ◌&&◌}
use mathlib.Core.List.{List, [], ◌∷◌, ◌++◌}

-- What a character under way still needs: the bytes so far, how many more, and the range of the next.
pub record Partial : Type 0 where
  pub taken : List ℕ
  pub missing : ℕ
  pub from : ℕ
  pub to : ℕ

pub data Progress : Type 0 where
  between : Progress
  inside : Partial → Progress

abbrev pub replacement : List ℕ
replacement = 0xef ∷ 0xbf ∷ 0xbd ∷ []

abbrev needs : ℕ → ℕ → ℕ → ℕ → Progress
needs b n lo hi = inside (record { taken = b ∷ []; missing = n; from = lo; to = hi })

abbrev in_range : ℕ → ℕ → ℕ → Bool
in_range lo hi b = leb lo b && leb b hi

-- The first byte of a character: what is put out at once, and what is then under way.
unfoldable pub lead : ℕ → List ℕ × Progress
lead b =
    if ltb b 0x80
    then (b ∷ [], between)
    else if in_range 0xc2 0xdf b
    then ([], needs b 1 0x80 0xbf)
    else if b == 0xe0
    then ([], needs b 2 0xa0 0xbf)
    else if b == 0xed
    then ([], needs b 2 0x80 0x9f)
    else if in_range 0xe1 0xef b
    then ([], needs b 2 0x80 0xbf)
    else if b == 0xf0
    then ([], needs b 3 0x90 0xbf)
    else if in_range 0xf1 0xf3 b
    then ([], needs b 3 0x80 0xbf)
    else if b == 0xf4
    then ([], needs b 3 0x80 0x8f)
    else (replacement, between)

-- One byte: a continuation of what is under way, or else that is replaced and the byte begins anew.
unfoldable pub next : Progress → ℕ → List ℕ × Progress
unfolding lead
next between b = lead b
next (inside p) b =
    if in_range p.from p.to b
    then (if p.missing == 1 then (p.taken ++ (b ∷ []), between) else (
      [],
      inside
          (record { taken = p.taken ++ (b ∷ []); missing = p.missing - 1; from = 0x80; to = 0xbf }),
    ))
    else (let (out, state) = lead b in (replacement ++ out, state))

unfoldable pub lossy_from : Progress → List ℕ → List ℕ
unfolding next
lossy_from between [] = []
lossy_from (inside p) [] = replacement
lossy_from s (b ∷ bs) = let (out, state) = next s b in out ++ lossy_from state bs

unfoldable pub from_utf8_lossy : List ℕ → List ℕ
unfolding lossy_from
from_utf8_lossy bs = lossy_from between bs

-- The bytes of a `String`: there is nothing to replace.
abbrev pub IsText : List ℕ → Type 0
IsText bs = from_utf8_lossy bs ≡ bs
