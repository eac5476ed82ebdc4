-- ===== src/Builder/Drawn.antt =====
-- The loop of `build` over the icons of the sprite.
use system_design_course.Common.{
  Option-cases, is_some, length, In, All, Text, Dict, lookup, ◌≡◌, refl, ◌⊎◌, inl, inr, true,
  Option, none, some, List, [], ◌∷◌, arith,
}
use system_design_course.Builder.Entries.{All-lookup}
use system_design_course.Builder.Assemble.{
  Drawing, Assets, Built, symbol_id, add_symbol, draw_all, symbol, no_svg, broken_file,
  icon_missing, not_svg, unreadable_icon, drawn, failed,
}

-- The icon of the sprite that stops the build, and what the build reports then.
unfoldable pub IsFault : Assets → Dict (Option Text) → Text → Built → Type 0
IsFault a m i b =
    ((lookup i m ≡ none) × (b ≡ icon_missing i))
    ⊎ ((file : Text) × (lookup i m ≡ some (some file))
        × (((a.draw file (symbol_id i) ≡ no_svg) × (b ≡ not_svg i))
            ⊎ ((a.draw file (symbol_id i) ≡ broken_file) × (b ≡ unreadable_icon i))))

-- An entry of the manifest has its "file".
unfoldable pub HasFiles : Dict (Option Text) → Type 0
HasFiles m = All {A = Text × Option Text} (λ e. is_some e.1 ≡ true) m

Drawing-cases : (d : Drawing) → ((s : Text) × (d ≡ symbol s)) ⊎ (d ≡ no_svg) ⊎ (d ≡ broken_file)
Drawing-cases (symbol s) = inl (s, refl)
Drawing-cases no_svg = inr (inl refl)
Drawing-cases broken_file = inr (inr refl)

pub draw_all-cases :
    (a : Assets) (m : Dict (Option Text)) (is : List Text)
    → HasFiles m
    → ((i : Text) × (b : Built) × In i is × IsFault a m i b × (draw_all a.draw m is ≡ failed b))
      ⊎ ((ss : List Text) × (length ss ≡ length is) × (draw_all a.draw m is ≡ drawn ss))
unfolding draw_all add_symbol HasFiles IsFault
draw_all-cases a m [] h = inr ([], refl, refl)
draw_all-cases a m (i ∷ is) h = elim (Option-cases (lookup i m)) [
  | inl e ↦ inl (i, icon_missing i, inl refl, inl (e, refl), ground (arith, e))
  | inr (none, e) ↦ absurd (ground (arith, All-lookup (λ k f. is_some f ≡ true) m i none h e))
  | inr (some file, e) ↦ elim (Drawing-cases (a.draw file (symbol_id i))) [
    | inr (inl d) ↦ inl (i, not_svg i, inl refl, inr (file, e, inl (d, refl)), ground (arith, e, d))
    | inr (inr d) ↦
        inl (i, unreadable_icon i, inl refl, inr (file, e, inr (d, refl)), ground (arith, e, d))
    | inl (s, d) ↦ elim (draw_all-cases a m is h) [
      | inl (j, b, inside, why, g) ↦ inl (j, b, inr inside, why, ground (arith, e, d, g))
      | inr (ss, same, g) ↦ inr (s ∷ ss, ground (arith, same), ground (arith, e, d, g))
    ]
  ]
]
