-- ===== src/Gateway/Paths.antt =====
-- Paths split at their slashes, with and without the slashes around them.
use mathlib.Core.List.{reverse, reverse_aux, reverse-reverse}
use system_design_course.Common.{
  ◌==◌, if◌then◌else◌, Bool-cases, Text, ℕ, ◌≡◌, refl, ap, ◌∙◌, ◌≢◌, ◌⊎◌, inl, inr, Bool, true,
  false, not, List, [], ◌∷◌, arith,
}
use system_design_course.Serverless.Orders.{split_slash, lstrip_slash, strip_slash}

List-cases {ℓ} : {A : Type ℓ} (xs : List A) → (xs ≡ []) ⊎ ((y : A) × (ys : List A) × (xs ≡ y ∷ ys))
List-cases [] = inl refl
List-cases (y ∷ ys) = inr (y, ys, refl)

-- The text does not begin, or not end, with a slash.
abbrev starts_plain : Text → Bool
starts_plain [] = false
starts_plain (c ∷ cs) = not (c == b'/')

unfoldable ends_plain : Text → Bool
ends_plain [] = false
ends_plain (c ∷ []) = not (c == b'/')
ends_plain (c ∷ d ∷ cs) = ends_plain (d ∷ cs)

abbrev given : Text → Bool
given [] = false
given (c ∷ cs) = true

unfoldable pub last_given : List Text → Bool
last_given [] = false
last_given (p ∷ []) = given p
last_given (p ∷ q ∷ ps) = last_given (q ∷ ps)

head_slash :
    (t q : Text) (ps : List Text)
    → split_slash t ≡ [] ∷ q ∷ ps
    → (cs : Text) × (t ≡ b'/' ∷ cs) × (split_slash cs ≡ q ∷ ps)
unfolding split_slash
head_slash [] q ps h = absurd (cc h)
head_slash (c ∷ cs) q ps h = elim (List-cases (split_slash cs)) [
  | inl e ↦ absurd (ground (arith, e, h))
  | inr (p, ps', e) ↦ elim (Bool-cases (c == b'/')) [
    | inl f ↦ (cs, ground (arith, f), ground (arith, e, f, h))
    | inr f ↦ absurd (ground (arith, e, f, h))
  ]
]

start_plain :
    (cs : Text) (d : ℕ) (w : Text) (ps : List Text)
    → split_slash cs ≡ (d ∷ w) ∷ ps
    → starts_plain cs ≡ true
unfolding split_slash
start_plain [] d w ps h = absurd (cc h)
start_plain (c ∷ cs) d w ps h = elim (List-cases (split_slash cs)) [
  | inl e ↦ absurd (ground (arith, e, h))
  | inr (p, ps', e) ↦ ground (arith, e, h)
]

split_step :
    (c : ℕ) (cs p : Text) (ps : List Text)
    → split_slash cs ≡ p ∷ ps
    → split_slash (c ∷ cs) ≡ (if c == b'/' then [] ∷ p ∷ ps else (c ∷ p) ∷ ps)
unfolding split_slash
split_step c cs p ps e = ground (arith, e)

split_given : (t : Text) → split_slash t ≢ []
unfolding split_slash
split_given [] h = cc h
split_given (c ∷ cs) h = elim (List-cases (split_slash cs)) [
  | inl e ↦ ground (arith, e, h)
  | inr (p, ps, e) ↦ ground (arith, e, h)
]

one_part : (d : ℕ) (ds part : Text) → split_slash (d ∷ ds) ≡ part ∷ [] → given part ≡ true
unfolding split_slash
one_part d ds part h = elim (List-cases (split_slash ds)) [
  | inl e ↦ absurd (split_given ds e)
  | inr (p, ps, e) ↦ ground (arith, e, h)
]

last_of_rest :
    (c d : ℕ) (ds : Text)
    → last_given (split_slash (c ∷ d ∷ ds)) ≡ true
    → last_given (split_slash (d ∷ ds)) ≡ true
unfolding last_given
last_of_rest c d ds h = elim (List-cases (split_slash (d ∷ ds))) [
  | inl e ↦ absurd (split_given (d ∷ ds) e)
  | inr (p, ps, e) ↦ go p ps e
]
  where
    go :
        (p : Text) (ps : List Text)
        → split_slash (d ∷ ds) ≡ p ∷ ps
        → last_given (split_slash (d ∷ ds)) ≡ true
    go p [] e = ground (arith, e, one_part d ds p e)
    go p (q ∷ qs) e = ground (arith, e, h, split_step c (d ∷ ds) p (q ∷ qs) e)

end_plain : (cs : Text) → last_given (split_slash cs) ≡ true → ends_plain cs ≡ true
unfolding split_slash last_given ends_plain
end_plain [] h = absurd (cc h)
end_plain (c ∷ []) h = ground (arith, h)
end_plain (c ∷ d ∷ ds) h = end_plain (d ∷ ds) (last_of_rest c d ds h)

lstrip-plain : (t : Text) → starts_plain t ≡ true → lstrip_slash t ≡ t
unfolding lstrip_slash
lstrip-plain [] h = refl
lstrip-plain (c ∷ cs) h = ground (arith, h)

starts-reverse_aux : (t r : Text) → ends_plain t ≡ true → starts_plain (reverse_aux t r) ≡ true
unfolding ends_plain
starts-reverse_aux [] r h = absurd (cc h)
starts-reverse_aux (c ∷ []) r h = h
starts-reverse_aux (c ∷ d ∷ cs) r h = starts-reverse_aux (d ∷ cs) (c ∷ r) h

strip-slash : (t : Text) → starts_plain t ≡ true → ends_plain t ≡ true → strip_slash (b'/' ∷ t) ≡ t
unfolding strip_slash lstrip_slash
strip-slash t hs he =
    ap (λ u. reverse (lstrip_slash (reverse u))) (lstrip-plain t hs)
    ∙ (ap reverse (lstrip-plain (reverse t) (starts-reverse_aux t [] he)) ∙ reverse-reverse t)

-- The parts of a path below a slash are those of the stripped path.
pub stripped_parts :
    (t : Text) (d : ℕ) (w : Text) (ps : List Text)
    → split_slash t ≡ [] ∷ (d ∷ w) ∷ ps
    → last_given ((d ∷ w) ∷ ps) ≡ true
    → split_slash (strip_slash t) ≡ (d ∷ w) ∷ ps
stripped_parts t d w ps h last =
    let (cs, e, f) = head_slash t (d ∷ w) ps h in
    let ends = end_plain cs (ap last_given f ∙ last) in
    ap (λ u. split_slash (strip_slash u)) e
    ∙ (ap split_slash (strip-slash cs (start_plain cs d w ps f) ends) ∙ f)
