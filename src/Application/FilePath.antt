-- ===== src/Application/FilePath.antt =====
-- `path/filepath` of Go's library on Unix: Base, Clean and Join, as the template code calls them.
use Prim.Native.Char.{Char, code}
use Prim.Native.String.{◌++◌ as text_append}
use ofm_mail_service.Prelude.{
  ◌≡◌, refl, String, List, [], ◌∷◌, Bool, true, false, ◌||◌, ◌==◌, eqb, if◌then◌else◌,
}

infixr 65 ◌++◌
abbrev ◌++◌ : String → String → String
s ++ t = text_append s t

abbrev is_separator : Char → Bool
is_separator c = eqb (code c) b'/'

abbrev snoc : String → Char → String
snoc s c = s ++ String.◌∷◌ c String.[]

-- The parts between the separators: "a//b" has the parts "a", "" and "b".
split_from : String → String → List String
split_from part String.[] = part ∷ []
split_from part (String.◌∷◌ c s) =
    let closed = split_from "" s in
    let longer = split_from (snoc part c) s in if is_separator c then part ∷ closed else longer

split : String → List String
unfolding split_from
split path = split_from "" path

-- The last part that is not empty.
last_part : String → List String → String
last_part found [] = found
last_part found (part ∷ parts) = last_part (if part == "" then found else part) parts

-- filepath.Base
unfoldable pub base : String → String
unfolding split last_part
base path =
    if path == ""
    then "."
    else (let name = last_part "" (split path) in if name == "" then "/" else name)

is_rooted : String → Bool
is_rooted String.[] = false
is_rooted (String.◌∷◌ c s) = is_separator c

-- ".." takes the part before it away, if there is one; at the root it is dropped.
climb : Bool → List String → List String
climb true [] = []
climb false [] = ".." ∷ []
climb rooted (top ∷ stack) = if top == ".." then ".." ∷ top ∷ stack else stack

-- One part of the path, with the kept parts as a stack.
clean_part : Bool → List String → String → List String
unfolding climb
clean_part rooted stack part =
    if part == "" || part == "."
    then stack
    else if part == ".."
    then climb rooted stack
    else part ∷ stack

clean_parts : Bool → List String → List String → List String
unfolding clean_part
clean_parts rooted stack [] = stack
clean_parts rooted stack (part ∷ parts) = clean_parts rooted (clean_part rooted stack part) parts

-- The stack, from its bottom, with separators between the parts.
unstack : List String → String → String
unstack [] path = path
unstack (part ∷ stack) path = unstack stack (if path == "" then part else part ++ "/" ++ path)

-- filepath.Clean
unfoldable pub clean : String → String
unfolding split is_rooted clean_parts unstack
clean path =
    let body = unstack (clean_parts (is_rooted path) [] (split path)) "" in
    if is_rooted path then "/" ++ body else if body == "" then "." else body

-- filepath.Join of two elements
unfoldable pub join : String → String → String
unfolding clean
join dir name =
    if dir == ""
    then (if name == "" then "" else clean name)
    else if name == ""
    then clean dir
    else clean (dir ++ "/" ++ name)

tests :
    (base "a/b.html//" ≡ "b.html")
    × (base "///" ≡ "/")
    × (base "" ≡ ".")
    × (base ".." ≡ "..")
    × (clean "a/./b/../c//" ≡ "a/c")
    × (clean "/../x" ≡ "/x")
    × (clean "../../x" ≡ "../../x")
    × (clean "" ≡ ".")
    × (clean "/" ≡ "/")
    × (clean "a/.." ≡ ".")
    × (join "templates" "email_code.html" ≡ "templates/email_code.html")
unfolding base clean join
tests = (refl, refl, refl, refl, refl, refl, refl, refl, refl, refl, refl)
