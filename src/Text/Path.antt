-- ===== src/Text/Path.antt =====
-- What the source uses of path/filepath, where the separator is "/".
pub mod Clean
use order_mock_payment.Prelude.{
  ℕ, Bool, true, false, ◌&&◌, ◌||◌, Option, none, some, List, [], ◌∷◌, ◌++◌, ◌==◌, if◌then◌else◌,
}
use mathlib.Core.List.{reverse}
use order_mock_payment.Text.{Text, text_eq, is_empty}

abbrev pub slash : ℕ
slash = b'/'

abbrev more : ℕ → List Text → List Text
more c [] = (c ∷ []) ∷ []
more c (s ∷ ss) = (c ∷ s) ∷ ss

-- The pieces between the separators; there is always one.
unfoldable pub split : Text → List Text
split [] = [] ∷ []
split (c ∷ s) = let rest = split s in if c == slash then [] ∷ rest else more c rest

abbrev pub dot : Text
dot = b'.' ∷ []

abbrev pub dot_dot : Text
dot_dot = b'.' ∷ (b'.' ∷ [])

-- What ".." does to the elements before it, the last first.
abbrev pub go_up : Bool → List Text → List Text
go_up true [] = []
go_up false [] = dot_dot ∷ []
go_up rooted (s ∷ ss) = if text_eq s dot_dot then dot_dot ∷ (s ∷ ss) else ss

abbrev pub enter : Bool → List Text → Text → List Text
enter rooted stack s =
    if is_empty s || text_eq s dot
    then stack
    else if text_eq s dot_dot
    then go_up rooted stack
    else s ∷ stack

unfoldable pub walk : Bool → List Text → List Text → List Text
walk rooted stack [] = stack
walk rooted stack (s ∷ ss) = walk rooted (enter rooted stack s) ss

-- The elements with separators between them.
unfoldable pub joined : List Text → Text
joined [] = []
joined (s ∷ []) = s
joined (s ∷ (t ∷ ss)) = s ++ (slash ∷ joined (t ∷ ss))

abbrev pub is_rooted : Text → Bool
is_rooted [] = false
is_rooted (c ∷ s) = c == slash

abbrev or_dot : Text → Text
or_dot [] = dot
or_dot (c ∷ s) = c ∷ s

abbrev pub printed : Bool → List Text → Text
printed true ss = slash ∷ joined ss
printed false ss = or_dot (joined ss)

-- `filepath.Clean`
unfoldable pub clean : Text → Text
unfolding split walk joined
clean path = printed (is_rooted path) (reverse (walk (is_rooted path) [] (split path)))

-- The elements of a Join from the first that is not empty.
unfoldable pub without_empty : List Text → List Text
without_empty [] = []
without_empty (s ∷ ss) = let rest = without_empty ss in if is_empty s then rest else s ∷ ss

abbrev joined_clean : List Text → Text
joined_clean [] = []
joined_clean (s ∷ ss) = clean (joined (s ∷ ss))

-- `filepath.Join`
unfoldable pub join : List Text → Text
unfolding clean without_empty
join ss = joined_clean (without_empty ss)

abbrev from_dir : Option Text → Text → Option Text
from_dir none path = none
from_dir (some dir) path = some (join (dir ∷ (path ∷ [])))

-- `filepath.Abs`, with the answer of os.Getwd
unfoldable pub abs : Option Text → Text → Option Text
unfolding join
abs working_dir path = if is_rooted path then some (clean path) else from_dir working_dir path

-- `strings.HasPrefix`
unfoldable pub has_prefix : Text → Text → Bool
has_prefix s [] = true
has_prefix [] (d ∷ t) = false
has_prefix (c ∷ s) (d ∷ t) = c == d && has_prefix s t

-- `strings.ContainsAny(s, "/\\")`
unfoldable pub contains_separator : Text → Bool
contains_separator [] = false
contains_separator (c ∷ s) = c == slash || c == b'\\' || contains_separator s

-- `strings.Contains(s, "..")`
unfoldable pub contains_dot_dot : Text → Bool
unfolding has_prefix
contains_dot_dot [] = false
contains_dot_dot (c ∷ s) = has_prefix (c ∷ s) dot_dot || contains_dot_dot s
