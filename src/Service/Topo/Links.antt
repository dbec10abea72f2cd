-- ===== src/Service/Topo/Links.antt =====
-- Dependencies as topo.go's input states them, and as the edges that its search follows.
use alresia_voltpanel.Prelude.{
  ◌≡◌, ◌≢◌, refl, String, Bool, true, false, not, ◌&&◌, ◌||◌, List, [], ◌∷◌, ◌++◌, str_eq, eq_iff,
  elem, arith, if◌then◌else◌, Bool-cases, inl, inr, str_eq_refl, elem-append,
}
use alresia_voltpanel.Service.Topo.{DepNode, ids}
use alresia_voltpanel.Service.Topo.Edges.{Edge, edges, edges_in, edges_to}
use alresia_voltpanel.Service.Topo.Invariant.{Ordered, waiting}

-- Some service `v` of the list names `d` among what it depends on.
unfoldable pub depends : List DepNode → String → String → Bool
depends [] v d = false
depends (n ∷ ns) v d = str_eq n.id v && elem d n.depends_on || depends ns v d

-- `v` depends on `d`, and `d` is in the list too.
unfoldable pub needs : List DepNode → String → String → Bool
unfolding depends
needs ns v d = depends ns v d && elem d (ids ns)

-- `a` stands in the list, and `b` behind its first place.
unfoldable pub before : String → String → List String → Bool
before a b [] = false
before a b (x ∷ xs) = if str_eq x a then elem b xs else before a b xs

pub linked : String → String → List Edge → Bool
linked d v [] = false
linked d v (e ∷ es) = str_eq e.0 d && str_eq e.1 v || linked d v es

linked-append :
    (d v : String) (es fs : List Edge) → linked d v (es ++ fs) ≡ (linked d v es || linked d v fs)
unfolding linked
linked-append d v [] fs = refl
linked-append d v (e ∷ es) fs = ground (arith, linked-append d v es fs)

linked-edges_to :
    (here : String → Bool) (id d v : String) (deps : List String)
    → linked d v (edges_to here id deps) ≡ (here d && (str_eq id v && elem d deps))
unfolding linked
linked-edges_to here id d v [] = ground arith
linked-edges_to here id d v (dep ∷ deps) =
    ground (arith, linked-edges_to here id d v deps, eq_iff dep d)

linked-edges_in :
    (here : String → Bool) (d v : String) (ns : List DepNode)
    → linked d v (edges_in here ns) ≡ (here d && depends ns v d)
unfolding linked depends
linked-edges_in here d v [] = ground arith
linked-edges_in here d v (n ∷ ns) = ground (
  arith,
  linked-append d v (edges_to here n.id n.depends_on) (edges_in here ns),
  linked-edges_to here n.id d v n.depends_on,
  linked-edges_in here d v ns,
)

pub linked-edges : (ns : List DepNode) (d v : String) → linked d v (edges ns) ≡ needs ns v d
unfolding edges needs
linked-edges ns d v = ground (arith, linked-edges_in (λ x. elem x (ids ns)) d v ns)

-- An edge into a name that waits for nothing starts in the order.
source_ordered :
    (es : List Edge) (order : List String) (d v : String)
    → linked d v es ≡ true
    → waiting es order v ≡ 0
    → elem d order ≡ true
unfolding linked
source_ordered [] order d v l w = cc
source_ordered ((a, b) ∷ es) order d v l w = ground (arith, source_ordered es order d v, eq_iff a d)

-- A name that waits has an edge from outside the order.
pub source_missing :
    (es : List Edge) (order : List String) (v : String)
    → waiting es order v ≢ 0
    → (d : String) × (linked d v es ≡ true) × (elem d order ≡ false)
unfolding linked
source_missing [] order v w = absurd (w refl)
source_missing ((a, b) ∷ es) order v w = elim (Bool-cases (str_eq b v && not (elem a order))) [
  | inl e ↦ (a, ground (arith, e, str_eq_refl a), ground (arith, e))
  | inr e ↦
      let (d, l, m) = source_missing es order v (ground (arith, e)) in (d, ground (arith, l), m)
]

pub Ordered-before :
    (es : List Edge) (seen vs : List String) (d v : String)
    → linked d v es ≡ true
    → Ordered es seen vs
    → elem v vs ≡ true
    → elem d seen ≡ false
    → before d v vs ≡ true
unfolding before
Ordered-before es seen [] d v l o m a = cc
Ordered-before es seen (u ∷ vs) d v l o m a = ground (
  arith,
  source_ordered es seen d v l,
  Ordered-before es (seen ++ u ∷ []) vs d v l o.1,
  elem-append d seen (u ∷ []),
  eq_iff u v,
  eq_iff u d,
)

-- Who depends on a service of the list is in the list.
depends_known : (ns : List DepNode) (v d : String) → depends ns v d ≡ true → elem v (ids ns) ≡ true
unfolding depends
depends_known [] v d h = cc
depends_known (n ∷ ns) v d h = ground (arith, depends_known ns v d)

pub needs_known :
    (ns : List DepNode) (d v : String)
    → needs ns v d ≡ true
    → (elem v (ids ns) ≡ true) × (elem d (ids ns) ≡ true)
unfolding needs
needs_known ns d v h = ground (arith, depends_known ns v d)

pub before-elem : (d v : String) (xs : List String) → before d v xs ≡ true → elem v xs ≡ true
unfolding before
before-elem d v [] h = cc
before-elem d v (x ∷ xs) h = ground (arith, before-elem d v xs)
