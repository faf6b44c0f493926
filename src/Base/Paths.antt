-- ===== src/Base/Paths.antt =====
-- The functions of Go's package `path` that the program calls.
use mathlib.Core.Bool.{Bool, true, false, ◌||◌}
use mathlib.Core.List.{List, [], ◌∷◌, ◌++◌, reverse}
use docker_backup.Base.Tests.{nat_eq, if◌then◌else◌}
use docker_backup.Base.Strings.{Text, ◌==◌, split, dot, slash}

-- What stands in front of the first slash, and the rest from that slash on.
unfoldable pub until_slash : Text → Text
until_slash [] = []
until_slash (c ∷ s) = let rest = until_slash s in if nat_eq c slash then [] else c ∷ rest

unfoldable pub from_slash : Text → Text
from_slash [] = []
from_slash (c ∷ s) = let rest = from_slash s in if nat_eq c slash then c ∷ s else rest

unfoldable pub skip_slashes : Text → Text
skip_slashes [] = []
skip_slashes (c ∷ s) = let rest = skip_slashes s in if nat_eq c slash then rest else c ∷ s

-- path.Base
unfoldable pub path_base : Text → Text
unfolding until_slash skip_slashes
path_base s =
    if s == []
    then dot ∷ []
    else (let last = reverse (until_slash (skip_slashes (reverse s))) in
        if last == [] then slash ∷ [] else last)

-- The loop of path.Clean over the parts of a path, with the parts that it keeps, the last one first.
unfoldable pub up_one : Bool → List Text → List Text
up_one true [] = []
up_one false [] = (dot ∷ dot ∷ []) ∷ []
up_one rooted (p ∷ out) = if p == (dot ∷ dot ∷ []) then p ∷ p ∷ out else out

unfoldable pub clean_parts : Bool → List Text → List Text → List Text
unfolding up_one
clean_parts rooted [] out = out
clean_parts rooted (p ∷ ps) out = clean_parts rooted ps (
    if (p == []) || (p == (dot ∷ []))
    then out
    else (if p == (dot ∷ dot ∷ []) then up_one rooted out else p ∷ out))

unfoldable pub join_parts : List Text → Text
join_parts [] = []
join_parts (p ∷ []) = p
join_parts (p ∷ q ∷ ps) = p ++ slash ∷ join_parts (q ∷ ps)

abbrev rooted_path : Text → Bool
rooted_path [] = false
rooted_path (c ∷ s) = nat_eq c slash

-- path.Clean
unfoldable pub path_clean : Text → Text
unfolding clean_parts join_parts split
path_clean s =
    let joined = join_parts (reverse (clean_parts (rooted_path s) (split slash s) [])) in
    if rooted_path s then slash ∷ joined else (if joined == [] then dot ∷ [] else joined)

-- path.Dir
unfoldable pub path_dir : Text → Text
unfolding path_clean from_slash
path_dir s = path_clean (reverse (from_slash (reverse s)))
