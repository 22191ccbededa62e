-- ===== src/Prelude/Trim.antt =====
-- `strings.TrimSpace` of Go's library, over the code points of a text.
use Prim.Native.Nat.{ℕ}
use Prim.Native.Char.{Char, code}
use Prim.Native.String.{String, [], ◌∷◌}
use mathlib.Core.Path.{◌≡◌, refl, ap}
use mathlib.Core.Logic.{inl, inr}
use mathlib.Core.Bool.{Bool, false, ◌&&◌, ◌||◌}
use ofm_mail_service.Prelude.Tests.{leb, eqb, if◌then◌else◌, Bool-cases}

-- unicode.IsSpace
abbrev pub is_space : ℕ → Bool
is_space c =
    leb 9 c && leb c 13
    || eqb c 0x20
    || eqb c 0x85
    || eqb c 0xa0
    || eqb c 0x1680
    || leb 0x2000 c && leb c 0x200a
    || eqb c 0x2028
    || eqb c 0x2029
    || eqb c 0x202f
    || eqb c 0x205f
    || eqb c 0x3000

trim_left : String → String
trim_left [] = []
trim_left (c ∷ s) = let rest = trim_left s in if is_space (code c) then rest else c ∷ s

-- A character before an empty rest is dropped if it is a space.
close_right : Char → String → String
close_right c [] = if is_space (code c) then [] else c ∷ []
close_right c (d ∷ s) = c ∷ d ∷ s

trim_right : String → String
unfolding close_right
trim_right [] = []
trim_right (c ∷ s) = close_right c (trim_right s)

unfoldable pub trim_space : String → String
unfolding trim_left trim_right
trim_space s = trim_right (trim_left s)

-- Nothing to cut at the front.
abbrev StartsPlain : String → Type 0
StartsPlain [] = Unit {0}
StartsPlain (c ∷ s) = is_space (code c) ≡ false

trim_left-StartsPlain : (s : String) → StartsPlain (trim_left s)
unfolding trim_left
trim_left-StartsPlain [] = tt
trim_left-StartsPlain (c ∷ s) = elim (Bool-cases (is_space (code c))) [
  | inl blank ↦ rw blank (trim_left-StartsPlain s)
  | inr plain ↦ rw plain plain
]

trim_left_of_StartsPlain : (s : String) → StartsPlain s → trim_left s ≡ s
unfolding trim_left
trim_left_of_StartsPlain [] h = refl
trim_left_of_StartsPlain (c ∷ s) h = rw h

trim_right-close_right :
    (c : Char) (r : String) → trim_right r ≡ r → trim_right (close_right c r) ≡ close_right c r
unfolding trim_right
trim_right-close_right c [] e = elim (Bool-cases (is_space (code c))) [
  | inl blank ↦ rw blank refl
  | inr plain ↦ rw plain (rw plain refl)
]
trim_right-close_right c (d ∷ s) e = ap (close_right c) e

trim_right-trim_right : (s : String) → trim_right (trim_right s) ≡ trim_right s
unfolding trim_right
trim_right-trim_right [] = refl
trim_right-trim_right (c ∷ s) = trim_right-close_right c (trim_right s) (trim_right-trim_right s)

close_right-StartsPlain :
    (c : Char) (r : String) → is_space (code c) ≡ false → StartsPlain (close_right c r)
unfolding close_right
close_right-StartsPlain c [] h = rw h h
close_right-StartsPlain c (d ∷ s) h = h

trim_right-StartsPlain : (s : String) → StartsPlain s → StartsPlain (trim_right s)
unfolding trim_right
trim_right-StartsPlain [] h = tt
trim_right-StartsPlain (c ∷ s) h = close_right-StartsPlain c (trim_right s) h

-- Trimming a second time changes nothing.
pub trim_space-trim_space : (s : String) → trim_space (trim_space s) ≡ trim_space s
unfolding trim_space
trim_space-trim_space s =
    let plain = trim_right-StartsPlain (trim_left s) (trim_left-StartsPlain s) in
    rw (trim_left_of_StartsPlain (trim_right (trim_left s)) plain)
      (trim_right-trim_right (trim_left s))

trim_test : trim_space " \t a b\n " ≡ "a b"
unfolding trim_space
trim_test = refl
