-- ===== src/Builder/Palette.antt =====
-- build.py, `validate` 3: the answers, the palette, the icons and the cloud of a puzzle.
use system_design_course.Common.{
  ◌==◌, if◌then◌else◌, is_some, concat_map, when, Text, codes, text_eq, Dict, lookup, has_key,
  insert, ℕ, Bool, true, false, not, ◌&&◌, Option, none, some, List, [], ◌∷◌, ◌++◌, map,
}
use system_design_course.Builder.Puzzle.{Group, Node, Slot, Tile, Puzzle, Context, tally}
use system_design_course.Builder.Problem.{
  Problem, tile_repeated, answer_missing, wrong_uses, answer_role, role_missing, many_uses,
  unknown_icon, other_cloud, generic_icon, group_cloud,
}

-- KIND_CLOUD: the cloud of a kind of group.
abbrev pub kind_cloud : Dict Text
kind_cloud =
    map (λ k. (k, codes "aws"))
      (codes "aws-cloud"
        ∷ codes "aws-account"
        ∷ codes "region"
        ∷ codes "az"
        ∷ codes "vpc"
        ∷ codes "public-subnet"
        ∷ codes "private-subnet"
        ∷ codes "security-group"
        ∷ codes "auto-scaling-group"
        ∷ [])
    ++ (map (λ k. (k, codes "azure"))
          (codes "azure-subscription"
            ∷ codes "azure-resource-group"
            ∷ codes "azure-region"
            ∷ codes "azure-vnet"
            ∷ codes "azure-subnet"
            ∷ codes "azure-zone"
            ∷ [])
        ++ (map (λ k. (k, codes "gcp"))
              (codes "gcp-cloud"
                ∷ codes "gcp-project"
                ∷ codes "gcp-region"
                ∷ codes "gcp-vpc"
                ∷ codes "gcp-subnet"
                ∷ codes "gcp-zone"
                ∷ [])
            ++ map (λ k. (k, codes "oci"))
                (codes "oci-tenancy"
                  ∷ codes "oci-compartment"
                  ∷ codes "oci-region"
                  ∷ codes "oci-ad"
                  ∷ codes "oci-fault-domain"
                  ∷ codes "oci-vcn"
                  ∷ codes "oci-subnet"
                  ∷ [])))

-- t.get("uses", 1) and t.get("role", "answer")
abbrev pub uses_of : Tile → ℕ
uses_of t = elim t.uses [ none ↦ 1 | some n ↦ n ]

abbrev pub role_or_answer : Tile → Text
role_or_answer t = elim t.role [ none ↦ codes "answer" | some r ↦ r ]

-- The tiles by service, and a problem for each that comes again.
unfoldable pub palette_onto : Dict Tile → List Tile → List Problem × Dict Tile
palette_onto pal [] = ([], pal)
palette_onto pal (t ∷ ts) =
    let (log, pal') = palette_onto (insert t.service t pal) ts in
    (when (has_key t.service pal) (tile_repeated t.service) ++ log, pal')

-- The tiles by service.
abbrev pub palette_of : Puzzle → Dict Tile
palette_of p = (palette_onto [] p.palette).1

-- How many slots each service answers.
abbrev pub needs : Puzzle → Dict ℕ
needs p = tally (map Slot.accept p.slots)

unfoldable pub check_answer : Dict Tile → Text × ℕ → List Problem
check_answer pal (sid, n) = elim (lookup sid pal) [
  | none ↦ answer_missing sid ∷ []
  | some t ↦
      if not (uses_of t == n)
      then wrong_uses sid n (uses_of t) ∷ []
      else when (not (text_eq (role_or_answer t) (codes "answer")))
          (answer_role sid (role_or_answer t))
]

unfoldable pub check_other : Dict ℕ → Text × Tile → List Problem
check_other need (sid, t) =
    when (not (has_key sid need) && not (is_some t.role)) (role_missing sid)
    ++ when (not (has_key sid need) && not (uses_of t == 1)) (many_uses sid)

-- An icon of a node or of the palette; `cloud` absent or null is no cloud of its own.
unfoldable pub check_icon : Context → Text → Text × Text → List Problem
check_icon ctx cloud (where_used, ident) = elim (lookup ident ctx.services) [
  | none ↦ unknown_icon where_used ident ∷ []
  | some svc ↦ elim svc.cloud [
    | none ↦ []
    | some other ↦ when (not (text_eq other cloud)) (other_cloud ident (some other) cloud)
  ]
]

-- not n.get("label")
abbrev pub no_text : Option Text → Bool
no_text none = true
no_text (some []) = true
no_text (some (c ∷ cs)) = false

unfoldable pub check_label : Context → Node → List Problem
check_label ctx n = elim (lookup n.icon ctx.services) [
  | none ↦ []
  | some svc ↦ when (not (is_some svc.cloud) && no_text n.label) (generic_icon n.id)
]

unfoldable pub check_kind : Text → Group → List Problem
check_kind cloud g = elim (lookup g.kind kind_cloud) [
  | none ↦ []
  | some kc ↦ when (not (text_eq kc cloud)) (group_cloud g.id g.kind kc)
]

abbrev pub icons_of : Puzzle → List (Text × Text)
icons_of p =
    map (λ n. (codes "nodo", Node.icon n)) p.nodes
    ++ map (λ t. (codes "paleta", Tile.service t)) p.palette

unfoldable pub check_palette : Context → Puzzle → List Problem
unfolding palette_onto
check_palette ctx p =
    (palette_onto [] p.palette).0
    ++ (concat_map (check_answer (palette_of p)) (needs p)
        ++ (concat_map (check_other (needs p)) (palette_of p)
            ++ (concat_map (check_icon ctx p.cloud) (icons_of p)
                ++ (concat_map (check_label ctx) p.nodes
                    ++ concat_map (check_kind p.cloud) p.groups))))
