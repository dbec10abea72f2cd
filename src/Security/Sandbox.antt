-- ===== src/Security/Sandbox.antt =====
-- internal/security/sandbox.go. filepath.EvalSymlinks is what the file system answers for a path; an
-- absolute path that is clean is the list of its parts.
use alresia_voltpanel.Prelude.{
  String, Bool, true, not, List, [], ◌∷◌, str_eq, if◌then◌else◌, Outcome, failed, done,
}
use alresia_voltpanel.Prelude.Paths.{FilePath, clean, join}

pub data Evaluated : Type 0 where
  real : FilePath → Evaluated
  not_exist : Evaluated
  broken : String → Evaluated

pub data SandboxError : Type 0 where
  unreadable : String → SandboxError
  escapes : SandboxError

pub record Sandbox : Type 0 where
  pub root : FilePath

-- filepath.Rel of two clean absolute paths, as its parts: "." is none
unfoldable pub climbs : List String → List String → List String
climbs [] target = target
climbs (b ∷ base) target = ".." ∷ climbs base target

unfoldable pub rel : List String → List String → List String
unfolding climbs
rel [] target = target
rel (b ∷ base) [] = climbs (b ∷ base) []
rel (b ∷ base) (t ∷ target) =
    let rest = rel base target in if str_eq b t then rest else climbs (b ∷ base) (t ∷ target)

-- neither ".." nor with the prefix "../"
unfoldable pub stays : List String → Bool
stays [] = true
stays (part ∷ parts) = not (str_eq part "..")

unfoldable pub is_within : FilePath → FilePath → Bool
unfolding rel stays
is_within root target = stays (rel root.parts target.parts)

abbrev pub absolute : List String → FilePath
absolute parts = record { rooted = true; parts = parts }

unfoldable pub onto : List String → List String → List String
onto [] parts = parts
onto (part ∷ above) parts = onto above (part ∷ parts)

-- The parts of `cur` stand in `above` from the last to the first; its Dir is the tail, its Base the
-- head.
unfoldable pub climb :
    (FilePath → Evaluated) → FilePath → List String → List String → Outcome SandboxError FilePath
unfolding join onto
climb eval path [] suffix = elim (eval (absolute [])) [
  | real resolved ↦ done (join resolved suffix)
  | broken e ↦ failed (unreadable e)
  | not_exist ↦ done path
]
climb eval path (part ∷ above) suffix =
    let parent = climb eval path above (part ∷ suffix) in
    elim (eval (absolute (onto (part ∷ above) []))) [
      | real resolved ↦ done (join resolved suffix)
      | broken e ↦ failed (unreadable e)
      | not_exist ↦ parent
    ]

unfoldable pub resolve_existing_ancestor :
    (FilePath → Evaluated) → FilePath → Outcome SandboxError FilePath
unfolding climb onto
resolve_existing_ancestor eval path = climb eval path (onto path.parts []) []

-- "" is the path without parts, as "." is when it is clean
unfoldable pub joined_path : Sandbox → FilePath → FilePath
unfolding clean join
joined_path s user = if user.rooted then clean user else join s.root user.parts

unfoldable pub resolve : (FilePath → Evaluated) → Sandbox → FilePath → Outcome SandboxError FilePath
unfolding is_within joined_path
resolve eval s user = elim (resolve_existing_ancestor eval (joined_path s user)) [
  | failed e ↦ failed e
  | done target ↦ if is_within s.root target then done (joined_path s user) else failed escapes
]

-- NewSandbox on the absolute path that filepath.Abs gives
unfoldable pub new_sandbox : (FilePath → Evaluated) → FilePath → Outcome SandboxError Sandbox
new_sandbox eval abs = elim (eval abs) [
  | real resolved ↦ done (record { root = resolved })
  | broken e ↦ failed (unreadable e)
  | not_exist ↦ done (record { root = abs })
]
