-- ===== src/Common/Paths.antt =====
-- `posixpath.normpath` on absolute paths.
use Prim.Native.Char.{code}
use Prim.Native.String.{String, ◌++◌}
use mathlib.Core.Bool.{◌&&◌, ◌||◌, not}
use mathlib.Core.List.{List, [], ◌∷◌, reverse}
use dvk_claude.Common.Tests.{◌=?◌, if◌then◌else◌}
use dvk_claude.Common.Text.{◌==◌, starts_with, split, is_empty}

-- The parts of a normal path, the last one first: `.` is dropped and `..` takes a part back.
unfoldable pub normal_parts : List String → List String → List String
normal_parts acc [] = acc
normal_parts acc (s ∷ ss) = normal_parts (next acc) ss
  where
    back : List String → List String
    back [] = []
    back (x ∷ xs) = xs

    next : List String → List String
    next parts =
        if is_empty s || s == "." then parts else if s == ".." then back parts else s ∷ parts

unfoldable pub join_slash : List String → String
join_slash [] = ""
join_slash (s ∷ []) = s
join_slash (s ∷ ss) = s ++ "/" ++ join_slash ss

-- POSIX keeps two leading slashes, and makes one of three or more.
abbrev root_of : String → String
root_of s = if starts_with s "//" && not (starts_with s "///") then "//" else "/"

unfoldable pub normpath : String → String
unfolding normal_parts join_slash split
normpath s = root_of s ++ join_slash (reverse (normal_parts [] (split b'/' s)))

-- `s.rstrip("/")`
unfoldable pub rstrip_slash : String → String
rstrip_slash String.[] = ""
rstrip_slash (String.◌∷◌ c s) =
    let rest = rstrip_slash s in if code c =? b'/' && is_empty rest then "" else String.◌∷◌ c rest
