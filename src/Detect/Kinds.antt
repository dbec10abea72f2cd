-- ===== src/Detect/Kinds.antt =====
-- The default registry of internal/domain/project/detect as a decision on the project's markers.
use alresia_voltpanel.Prelude.{
  ◌≡◌, ◌∙◌, refl, ap, Bool, true, false, ◌||◌, Option, none, some, List, [], ◌∷◌, if◌then◌else◌,
  on_if, done,
}
use alresia_voltpanel.Detect.{
  Detector, Kind, laravel, nextjs, node, php, unknown, Result, ComposerJson, PackageJson, Directory,
  Json, read_composer_json, read_package_json, requires_laravel, lists_next, script,
  laravel_detector, nextjs_match, nextjs_detector, node_match, node_detector, php_detector,
  detect_with, detect, no_match,
}

-- The kind by the markers: the `artisan` file, the two manifests.
abbrev pub kind_of : Bool → Option ComposerJson → Option PackageJson → Kind
kind_of artisan composer none =
    if artisan || requires_laravel composer
    then laravel
    else elim composer [ none ↦ unknown | some c ↦ php ]
kind_of artisan composer (some pkg) =
    if artisan || requires_laravel composer
    then laravel
    else if lists_next pkg
    then nextjs
    else node

passes :
    (d : Detector) (ds : List Detector) (dir : Directory)
    → d dir ≡ done none
    → detect_with (d ∷ ds) dir ≡ detect_with ds dir
unfolding detect_with
passes d ds dir e = rw (e, detect_with) refl

matches :
    (d : Detector) (ds : List Detector) (dir : Directory) (r : Result)
    → d dir ≡ done (some r)
    → detect_with (d ∷ ds) dir ≡ done r
unfolding detect_with
matches d ds dir r e = rw (e, detect_with) refl

abbrev Decided : Json → Directory → Kind → Type 0
Decided json dir kind = (r : Result) × (detect json dir ≡ done r) × (r.kind ≡ kind)

abbrev laravel_match : Result
laravel_match = record { kind = laravel; run_command = "php artisan serve"; detail = "" }

module _ (json : Json) (dir : Directory) (composer : Option ComposerJson)
    (c : read_composer_json json dir ≡ done composer) where
  laravel_found :
      dir.is_file "artisan" || requires_laravel composer ≡ true → Decided json dir laravel
  unfolding detect laravel_detector
  laravel_found m = (
    laravel_match,
    matches (laravel_detector json) _ dir laravel_match (rw (c, laravel_detector) (rw m refl)),
    refl,
  )

  module _ (m : dir.is_file "artisan" || requires_laravel composer ≡ false) where
    laravel_passes :
        detect json dir
        ≡ detect_with (nextjs_detector json ∷ node_detector json ∷ php_detector json ∷ []) dir
    unfolding detect laravel_detector
    laravel_passes = passes (laravel_detector json) _ dir (rw (c, laravel_detector) (rw m refl))

    next_found :
        (pkg : PackageJson) (r : Result)
        → read_package_json json dir ≡ done (some pkg)
        → nextjs_match pkg ≡ some r
        → detect json dir ≡ done r
    unfolding nextjs_detector
    next_found pkg r p n =
        laravel_passes
        ∙ matches (nextjs_detector json) _ dir r (rw (p, nextjs_detector) (ap (λ x. done x) n))

    plain_node_found :
        (pkg : PackageJson)
        → read_package_json json dir ≡ done (some pkg)
        → nextjs_match pkg ≡ none
        → detect json dir ≡ done (node_match pkg)
    unfolding nextjs_detector node_detector
    plain_node_found pkg p n =
        laravel_passes
        ∙ passes (nextjs_detector json) _ dir (rw (p, nextjs_detector) (ap (λ x. done x) n))
        ∙ matches (node_detector json) _ dir (node_match pkg) (rw (p, node_detector) refl)

    node_found :
        (pkg : PackageJson)
        → read_package_json json dir ≡ done (some pkg)
        → Decided json dir (if lists_next pkg then nextjs else node)
    unfolding nextjs_match node_match
    node_found pkg p =
        on_if (Decided json dir) (lists_next pkg) nextjs node
          (λ n. (
            record {
              kind = nextjs;
              run_command = if script "dev" pkg then "npm run dev" else "next dev";
              detail = "";
            },
            next_found pkg _ p (rw n refl),
            refl,
          ))
          λ n. (
            node_match pkg,
            plain_node_found pkg p (rw n refl),
            on_if (λ (r : Result). r.kind ≡ node) (script "start" pkg) _ _ (λ _. refl) λ _. refl,
          )

    no_package :
        read_package_json json dir ≡ done none
        → detect json dir ≡ detect_with (php_detector json ∷ []) dir
    unfolding nextjs_detector node_detector
    no_package p =
        laravel_passes
        ∙ passes (nextjs_detector json) _ dir (rw (p, nextjs_detector) refl)
        ∙ passes (node_detector json) _ dir (rw (p, node_detector) refl)

no_manifest :
    (json : Json) (dir : Directory)
    → read_composer_json json dir ≡ done none
    → detect_with (php_detector json ∷ []) dir ≡ done no_match
unfolding php_detector detect_with
no_manifest json dir c = passes (php_detector json) [] dir (rw (c, php_detector) refl)

composer_only :
    (json : Json) (dir : Directory) (composer : ComposerJson)
    → read_composer_json json dir ≡ done (some composer)
    → detect_with (php_detector json ∷ []) dir
      ≡ done (record { kind = php; run_command = ""; detail = "unknown/generic php" })
unfolding php_detector
composer_only json dir composer c = matches (php_detector json) [] dir _ (rw (c, php_detector) refl)

-- In a directory whose manifests are absent or can be read, `Detect` succeeds, with the kind that
-- the markers decide: Laravel before all, then Next.js before plain Node, and Node before plain
-- PHP.
pub detect-kind_of :
    (json : Json) (dir : Directory) (composer : Option ComposerJson) (pkg : Option PackageJson)
    → read_composer_json json dir ≡ done composer
    → read_package_json json dir ≡ done pkg
    → (r : Result) × (detect json dir ≡ done r)
      × (r.kind ≡ kind_of (dir.is_file "artisan") composer pkg)
detect-kind_of json dir composer (some pkg) c p =
    on_if (Decided json dir) (dir.is_file "artisan" || requires_laravel composer) _ _
      (laravel_found json dir composer c) λ m. node_found json dir composer c m pkg p
detect-kind_of json dir none none c p =
    on_if (Decided json dir) (dir.is_file "artisan" || requires_laravel none) _ _
      (laravel_found json dir none c)
      λ m. (no_match, no_package json dir none c m p ∙ no_manifest json dir c, refl)
detect-kind_of json dir (some composer) none c p =
    on_if (Decided json dir) (dir.is_file "artisan" || requires_laravel (some composer)) _ _
      (laravel_found json dir (some composer) c)
      λ m. (_, no_package json dir (some composer) c m p ∙ composer_only json dir composer c, refl)
