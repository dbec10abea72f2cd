-- ===== src/Plugins/Registry.antt =====
-- internal/providers/registry.go: the providers of runtimes by their kind.
use alresia_voltpanel.Prelude.{String, Option, List, []}
use alresia_voltpanel.Prelude.Dict
use alresia_voltpanel.Prelude.Dict.{Dict, get, put, values, string_key}

abbrev pub Registry : Type 0 → Type 0
Registry P = Dict String P

module _ {P : Type 0} where
  unfoldable pub new_registry : Registry P
  new_registry = []

  unfoldable pub register_runtime : (P → String) → Registry P → P → Registry P
  unfolding put
  register_runtime kind r p = put (kind p) p r

  unfoldable pub unregister_runtime : Registry P → String → Registry P
  unfolding Dict.remove
  unregister_runtime r k = Dict.remove k r

  unfoldable pub runtime : Registry P → String → Option P
  unfolding get
  runtime r k = get k r

  -- in no particular order
  unfoldable pub runtimes : Registry P → List P
  unfolding values
  runtimes r = values r
