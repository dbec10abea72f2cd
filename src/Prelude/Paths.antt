-- ===== src/Prelude/Paths.antt =====
-- Slash-separated paths as the list of their parts, with Clean, Join, Dir, Base and Rel of Go's
-- path/filepath on them. The text of a path is its parts with `/` between them.
use Prim.Native.String.{String}
use mathlib.Core.Bool.{Bool, ◌||◌}
use mathlib.Core.Option.{Option, none, some}
use mathlib.Core.List.{List, [], ◌∷◌, ◌++◌}
use text.Mathlib.Text.{◌==◌ as str_eq}
use alresia_voltpanel.Prelude.Checks.{if◌then◌else◌}

pub record FilePath : Type 0 where
  pub rooted : Bool
  pub parts : List String

-- a list without its last element
unfoldable pub but_last : List String → List String
but_last [] = []
but_last (x ∷ []) = []
but_last (x ∷ y ∷ xs) = x ∷ but_last (y ∷ xs)

unfoldable pub last : List String → Option String
last [] = none
last (x ∷ []) = some x
last (x ∷ y ∷ xs) = last (y ∷ xs)

-- what `..` does to the parts kept so far: above the root is the root, above a relative path is `..`
unfoldable pub up : Bool → List String → List String
unfolding but_last last
up rooted kept = elim (last kept) [
  | none ↦ if rooted then [] else ".." ∷ []
  | some part ↦ if str_eq part ".." then kept ++ ".." ∷ [] else but_last kept
]

unfoldable pub clean_onto : Bool → List String → List String → List String
unfolding up
clean_onto rooted kept [] = kept
clean_onto rooted kept (part ∷ parts) =
    let next : List String =
      if str_eq part "" || str_eq part "."
      then kept
      else if str_eq part ".."
      then up rooted kept
      else kept ++ part ∷ [] in
    clean_onto rooted next parts

unfoldable pub clean : FilePath → FilePath
unfolding clean_onto
clean p = record p { parts = clean_onto p.rooted [] p.parts }

unfoldable pub join : FilePath → List String → FilePath
unfolding clean
join p parts = clean (record p { parts = p.parts ++ parts })

unfoldable pub dir : FilePath → FilePath
unfolding but_last clean
dir p = clean (record p { parts = but_last p.parts })
