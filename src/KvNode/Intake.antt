-- ===== src/KvNode/Intake.antt =====
-- /internal/replicate of kv_node.py: the records of a readable body reach the store.
use system_design_course.Common.{
  Bool-cases, length, In, All, Text, codes, text_eq, text_eq_self, among, Dict, lookup, ℕ, ◌≤◌, ◌≡◌,
  refl, ◌∙◌, ◌⊎◌, inl, inr, true, false, Option, some, List, [], ◌∷◌, map, arith,
}
use system_design_course.KvNode.Version.{Record}
use system_design_course.KvNode.Store.{Config, Store, apply}
use system_design_course.KvNode.Sync.{apply_all}
use system_design_course.KvNode.Http.{reply, text, number, replied}
use system_design_course.KvNode.Post.{ReadItems, read_items, do_post}
use system_design_course.KvNode.Merge.{lookup-apply}
use system_design_course.KvNode.Convergence.{Covers, delivered-Covers}

-- A list of items of which none raises.
abbrev pub readable : Dict Record → List (Option (Text × Record))
readable [] = []
readable (item ∷ items) = some item ∷ readable items

read_items-readable : (items : Dict Record) → read_items (readable items) ≡ (true, items)
unfolding read_items
read_items-readable [] = refl
read_items-readable (item ∷ items) = ground (arith, read_items-readable items)

apply_all-bound : (items : Dict Record) (s : Store) → (apply_all items s).0 ≤ length items
unfolding apply_all
apply_all-bound [] s = omega arith
apply_all-bound ((key, r) ∷ items) s = ground (arith, apply_all-bound items (apply key r s).1)

-- Each item is covered once all of a list that holds them are applied.
items-Covers :
    (all items : Dict Record) (s : Store)
    → ((key : Text) (r : Record) → In (key, r) items → In (key, r) all)
    → All (λ item. Covers (apply_all all s).1.entries item.0 item.1) items
items-Covers all [] s h = tt
items-Covers all ((key, r) ∷ items) s h = (
  delivered-Covers all key r s (h key r (inl refl)),
  items-Covers all items s (λ k q w. h k q (inr w)),
)

-- A key that no item has keeps its record.
apply_all-frame :
    (items : Dict Record) (j : Text) (s : Store)
    → (among j (map (λ item. item.0) items) ≡ true)
      ⊎ (lookup j (apply_all items s).1.entries ≡ lookup j s.entries)
unfolding apply_all among
apply_all-frame [] j s = inr refl
apply_all-frame ((key, r) ∷ items) j s = elim (apply_all-frame items j (apply key r s).1) [
  | inl inside ↦ inl (ground (arith, inside))
  | inr same ↦ elim (Bool-cases (text_eq key j)) [
    | inl e ↦ inl (ground (arith, e))
    | inr e ↦ inr (same ∙ (lookup-apply key j r s ∙ ground (arith, e)))
  ]
]

-- A POST of records that decode is answered with a number that is at most that of the records, and
-- then the node holds for the key of each of them a record that is at least as new. A key that none of
-- them has keeps its record.
pub replicate-Covers :
    (cfg : Config) (loads : ReadItems) (body : Text) (items : Dict Record) (s : Store) (j : Text)
    → text_eq body [] ≡ false
    → loads body ≡ some (readable items)
    → (count : ℕ) × (s' : Store) × (do_post cfg loads (codes "/internal/replicate") body s
        ≡ replied
            (reply 200 ((codes "node", text cfg.node_id) ∷ (codes "applied", number count) ∷ []))
            s')
      × (count ≤ length items)
      × All (λ item. Covers s'.entries item.0 item.1) items
      × ((among j (map (λ item. item.0) items) ≡ true) ⊎ (lookup j s'.entries ≡ lookup j s.entries))
unfolding do_post
replicate-Covers cfg loads body items s j full read = (
  (apply_all items s).0,
  (apply_all items s).1,
  ground (arith, read, full, read_items-readable items, text_eq_self (codes "/internal/replicate")),
  apply_all-bound items s,
  items-Covers items items s (λ k q w. w),
  apply_all-frame items j s,
)
