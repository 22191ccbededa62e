-- ===== src/Smtp/Lines.antt =====
-- The lines of a message, as Go's net/textproto reads them: a line ends at LF, or at CRLF.
use Prim.Native.Char.{Char, code}
use Prim.Native.String.{String, [], ◌∷◌, ◌++◌}
use text.Mathlib.TextLemmas.{nil-append, cons-append, cons-ne-nil}
use ofm_mail_service.Prelude.{
  ◌≡◌, ◌≢◌, ◌==◌, eq_iff, refl, ap, ◌∙◌, inl, inr, Bool, false, ◌&&◌, ◌||◌, eqb, Bool-cases, Option,
  none, some, if◌then◌else◌, arith,
}
use ofm_mail_service.Smtp.Config.{crlf}

abbrev is_break : Char → Bool
is_break c = eqb (code c) 13 || eqb (code c) 10

-- Is there a carriage return or a line feed?
unfoldable pub has_break : String → Bool
has_break [] = false
has_break (c ∷ s) = let rest = has_break s in is_break c || rest

pub has_break-append :
    (s t : String) → has_break s ≡ false → has_break t ≡ false → has_break (s ++ t) ≡ false
unfolding has_break
has_break-append [] t hs ht = rw (nil-append t) ht
has_break-append (c ∷ s) t hs ht =
    let h = has_break-append s t in rw (cons-append c s t) (ground arith)

abbrev with_char : Char → Option (String × String) → Option (String × String)
with_char c (some (line, rest)) = some (c ∷ line, rest)
with_char c none = none

-- the text up to the first LF or CRLF, and what follows it
unfoldable pub break_line : String → Option (String × String)
break_line [] = none
break_line (c ∷ []) = if eqb (code c) 10 then some ([], []) else none
break_line (c ∷ d ∷ s) =
    let later = break_line (d ∷ s) in
    if eqb (code c) 10
    then some ([], d ∷ s)
    else if eqb (code c) 13 && eqb (code d) 10
    then some ([], s)
    else with_char c later

-- A character that is neither is a part of the line.
step :
    (c : Char) (s line rest : String)
    → (eqb (code c) 13 ≡ false) × (eqb (code c) 10 ≡ false)
    → break_line s ≡ some (line, rest)
    → break_line (c ∷ s) ≡ some (c ∷ line, rest)
unfolding break_line
step c [] line rest h e = cc
step c (d ∷ s) line rest (h, k) e = rw (h, k) (rw e refl)

plain_head :
    (c : Char) (s : String)
    → has_break (c ∷ s) ≡ false
    → (eqb (code c) 13 ≡ false) × (eqb (code c) 10 ≡ false) × (has_break s ≡ false)
unfolding has_break
plain_head c s h = ground arith

abbrev cr : Char
cr = "\r"

abbrev lf : Char
lf = "\n"

crlf-append : (rest : String) → crlf ++ rest ≡ cr ∷ lf ∷ rest
crlf-append rest =
    cons-append cr "\n" rest
    ∙ ap (λ s. cr ∷ s) (cons-append lf "" rest ∙ ap (λ s. lf ∷ s) (nil-append rest))

break_here : (rest : String) → break_line (cr ∷ lf ∷ rest) ≡ some ("", rest)
unfolding break_line
break_here rest = refl

pub break_line-crlf :
    (line rest : String)
    → has_break line ≡ false
    → break_line (line ++ crlf ++ rest) ≡ some (line, rest)
break_line-crlf [] rest h = rw (nil-append (crlf ++ rest)) (rw (crlf-append rest) (break_here rest))
break_line-crlf (c ∷ line) rest h =
    let (no_cr, no_lf, later) = plain_head c line h in
    rw (cons-append c line (crlf ++ rest))
      (step c (line ++ crlf ++ rest) line rest (no_cr, no_lf) (break_line-crlf line rest later))

-- A line of a header block: it is not empty, and has no line break.
abbrev pub IsLine : String → Type 0
IsLine line = (line == "" ≡ false) × (has_break line ≡ false)

not_empty : {t : String} → t ≢ "" → t == "" ≡ false
not_empty {t} h = elim (Bool-cases (t == "")) [
  | inl same ↦ absurd (h ((eq_iff t "").0 same))
  | inr other ↦ other
]

pub named-IsLine :
    (c : Char) (name value : String)
    → has_break (c ∷ name) ≡ false
    → has_break value ≡ false
    → IsLine ((c ∷ name) ++ value)
named-IsLine c name value hn hv = (
  not_empty (rw (cons-append c name value) (λ e. cons-ne-nil c (name ++ value) e)),
  has_break-append (c ∷ name) value hn hv,
)
