-- ===== src/Detect.antt =====
-- internal/domain/project/detect. A directory is what os.Stat and os.ReadFile answer for its names;
-- the two uses of encoding/json are arguments of the detectors, in `Json`.
pub mod Kinds
pub mod Registry
use alresia_voltpanel.Prelude.{
  String, Bool, true, false, not, ◌&&◌, ◌||◌, Option, none, some, List, [], ◌∷◌, ◌++◌, str_eq,
  if◌then◌else◌, Outcome, failed, done,
}
use alresia_voltpanel.Prelude.Dict.{Dict, get, string_key}

pub data Kind : Type 0 where
  laravel : Kind
  nextjs : Kind
  node : Kind
  php : Kind
  unknown : Kind

pub record Result : Type 0 where
  pub kind : Kind
  pub run_command : String
  pub detail : String

pub record ComposerJson : Type 0 where
  pub require : Dict String String

-- `scripts` is `none` for a nil map.
pub record PackageJson : Type 0 where
  pub dependencies : Dict String String
  pub dev_dependencies : Dict String String
  pub scripts : Option (Dict String String)

pub data Read : Type 0 where
  absent : Read
  unreadable : String → Read
  content : String → Read

pub record Directory : Type 0 where
  pub is_file : String → Bool
  pub read_file : String → Read

pub record Json : Type 0 where
  pub parse_composer : String → Outcome String ComposerJson
  pub parse_package : String → Outcome String PackageJson

-- `none` where the file does not exist
unfoldable pub read_json :
    {A : Type 0} → (String → Outcome String A) → Read → Outcome String (Option A)
read_json decode absent = done none
read_json decode (unreadable e) = failed e
read_json decode (content text) = elim (decode text) [
  | failed e ↦ failed e
  | done a ↦ done (some a)
]

unfoldable pub has : String → Dict String String → Bool
unfolding get
has name d = elim (get name d) [ none ↦ false | some v ↦ true ]

-- `done none` is no match.
abbrev pub Detector : Type 0
Detector = Directory → Outcome String (Option Result)

unfoldable pub requires_laravel : Option ComposerJson → Bool
requires_laravel none = false
requires_laravel (some c) = has "laravel/framework" c.require

unfoldable pub script : String → PackageJson → Bool
script name pkg = elim pkg.scripts [ none ↦ false | some scripts ↦ has name scripts ]

unfoldable pub lists_next : PackageJson → Bool
lists_next pkg = has "next" pkg.dependencies || has "next" pkg.dev_dependencies

unfoldable pub nextjs_match : PackageJson → Option Result
nextjs_match pkg =
    if lists_next pkg
    then some (record {
      kind = nextjs;
      run_command = if script "dev" pkg then "npm run dev" else "next dev";
      detail = "";
    })
    else none

unfoldable pub node_match : PackageJson → Result
node_match pkg =
    if script "start" pkg
    then record { kind = node; run_command = "npm start"; detail = "" }
    else record { kind = node; run_command = ""; detail = "no start script found in package.json" }

module _ (json : Json) where
  unfoldable pub read_composer_json : Directory → Outcome String (Option ComposerJson)
  read_composer_json dir = read_json json.parse_composer (dir.read_file "composer.json")

  unfoldable pub read_package_json : Directory → Outcome String (Option PackageJson)
  read_package_json dir = read_json json.parse_package (dir.read_file "package.json")

  unfoldable pub laravel_detector : Detector
  laravel_detector dir = elim (read_composer_json dir) [
    | failed e ↦ failed e
    | done composer ↦
        if dir.is_file "artisan" || requires_laravel composer
        then done (some (record { kind = laravel; run_command = "php artisan serve"; detail = "" }))
        else done none
  ]

  unfoldable pub nextjs_detector : Detector
  nextjs_detector dir = elim (read_package_json dir) [
    | failed e ↦ failed e
    | done found ↦ elim found [ none ↦ done none | some pkg ↦ done (nextjs_match pkg) ]
  ]

  unfoldable pub node_detector : Detector
  node_detector dir = elim (read_package_json dir) [
    | failed e ↦ failed e
    | done found ↦ elim found [ none ↦ done none | some pkg ↦ done (some (node_match pkg)) ]
  ]

  unfoldable pub php_detector : Detector
  php_detector dir = elim (read_composer_json dir) [
    | failed e ↦ failed e
    | done found ↦ elim found [
      | none ↦ done none
      | some composer ↦
          done (some (record { kind = php; run_command = ""; detail = "unknown/generic php" }))
    ]
  ]

  abbrev pub default_detectors : List Detector
  default_detectors = laravel_detector ∷ nextjs_detector ∷ node_detector ∷ php_detector ∷ []

abbrev pub no_match : Result
no_match = record { kind = unknown; run_command = ""; detail = "no known framework markers found" }

unfoldable pub register : List Detector → Detector → List Detector
register registry d = registry ++ d ∷ []

unfoldable pub detect_with : List Detector → Directory → Outcome String Result
detect_with [] dir = done no_match
detect_with (d ∷ ds) dir = elim (d dir) [
  | failed e ↦ failed e
  | done found ↦ elim found [ some r ↦ done r | none ↦ detect_with ds dir ]
]

unfoldable pub detect : Json → Directory → Outcome String Result
detect json dir = detect_with (default_detectors json) dir
