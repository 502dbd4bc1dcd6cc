-- ===== src/Paths.antt =====
-- What crates/plugkill-core/src/config.rs and crates/plugkill/src/kill.rs ask of `std::path`. A path
-- is its text; its components are what stands between the slashes, less the empty ones and ".".
use plugkill.Prelude.{
  Bool, false, not, ◌&&◌, Option, none, some, List, [], ◌∷◌, ◌++◌, eqb, any, filter, split,
  if◌then◌else◌, ◌==◌, nat_eq, list_eq, list_beq, Text, codes,
}

-- `is_absolute`
unfoldable pub is_absolute : Text → Bool
is_absolute [] = false
is_absolute (c ∷ path) = eqb c b'/'

unfoldable pub components : Text → List Text
unfolding filter split list_beq
components path = filter (λ (c : Text). not (c == []) && not (c == codes ".")) (split b'/' path)

-- `Component::ParentDir` among the components
unfoldable pub has_parent_dir : List Text → Bool
unfolding any list_beq
has_parent_dir parts = any (λ (c : Text). c == codes "..") parts

-- The components less the last, where there is one.
unfoldable pub but_last : List Text → List Text
but_last [] = []
but_last (c ∷ []) = []
but_last (c ∷ d ∷ parts) = c ∷ but_last (d ∷ parts)

unfoldable pub last : List Text → Option Text
last [] = none
last (c ∷ []) = some c
last (c ∷ d ∷ parts) = last (d ∷ parts)

-- `parent`, as its components
unfoldable pub parent : Text → Option (List Text)
unfolding components but_last
parent path = elim (components path) [ [] ↦ none | c ∷ parts ↦ some (but_last (c ∷ parts)) ]

unfoldable pub ends_with_slash : Text → Bool
ends_with_slash [] = false
ends_with_slash (c ∷ []) = eqb c b'/'
ends_with_slash (c ∷ d ∷ path) = ends_with_slash (d ∷ path)

-- The path of an entry: `join` of a directory's path and a name.
unfoldable pub join : Text → Text → Text
unfolding ends_with_slash
join path name = if ends_with_slash path then path ++ name else path ++ b'/' ∷ name
