-- ===== src/Tests/Detect.antt =====
-- internal/domain/project/detect at a directory with both manifests.
use alresia_voltpanel.Prelude.{
  ◌≡◌, ◌⊎◌, refl, false, none, some, [], ◌∷◌, str_eq, if◌then◌else◌, done,
}
use alresia_voltpanel.Detect.{
  Result, ComposerJson, PackageJson, content, Directory, Json, read_composer_json,
  read_package_json, read_json, node_detector, php_detector, register, detect_with, detect,
}
use alresia_voltpanel.Detect.Kinds.{kind_of, detect-kind_of}
use alresia_voltpanel.Detect.Registry.{AllPass, register-detect_with}

abbrev plain_composer : ComposerJson
plain_composer = record { require = ("php", "^8.2") ∷ [] }

abbrev next_package : PackageJson
next_package = record { dependencies = ("next", "15") ∷ []; dev_dependencies = []; scripts = none }

abbrev both : Directory
both = record {
  is_file = λ name. false;
  read_file = λ name. if str_eq name "package.json" then content "{}" else content "{ }";
}

abbrev decoders : Json
decoders = record {
  parse_composer = λ text. done plain_composer;
  parse_package = λ text. done next_package;
}

composer_there : read_composer_json decoders both ≡ done (some plain_composer)
unfolding read_composer_json read_json
composer_there = refl

package_there : read_package_json decoders both ≡ done (some next_package)
unfolding read_package_json read_json
package_there = refl

detect-kind_of_example :
    (r : Result) × (detect decoders both ≡ done r)
    × (r.kind ≡ kind_of false (some plain_composer) (some next_package))
detect-kind_of_example =
    detect-kind_of decoders both (some plain_composer) (some next_package) composer_there
      package_there

register-detect_with_example :
    (AllPass (node_detector decoders ∷ []) both
      × (detect_with (register (node_detector decoders ∷ []) (php_detector decoders)) both
          ≡ detect_with (php_detector decoders ∷ []) both))
    ⊎ ((¬ AllPass (node_detector decoders ∷ []) both)
        × (detect_with (register (node_detector decoders ∷ []) (php_detector decoders)) both
            ≡ detect_with (node_detector decoders ∷ []) both))
register-detect_with_example =
    register-detect_with (node_detector decoders ∷ []) (php_detector decoders) both
