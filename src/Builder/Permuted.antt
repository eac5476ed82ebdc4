-- ===== src/Builder/Permuted.antt =====
-- The numbers and the steps of a puzzle that build.py accepts.
use mathlib.Core.Path.{subst}
use system_design_course.Common.{
  ltb, leb, ◌==◌, if◌then◌else◌, Bool-cases, length, text_eq, text_eq_iff, ℕ, zero, suc, ◌+◌, ◌≤◌,
  ◌<◌, ◌≡◌, refl, sym, ap, ◌∙◌, ◌≢◌, inl, inr, true, false, not, ◌&&◌, ◌||◌, List, [], ◌∷◌, map,
  arith,
}
use system_design_course.Builder.Puzzle.{Puzzle}
use system_design_course.Builder.Problem.{
  Clean, Clean-append, Clean-when, number_repeated, requirements_repeated, numbers_differ,
  steps_repeated, steps_gap,
}
use system_design_course.Builder.Numbers.{
  contains_number, count_number, place_number, sorted_set, diagram_numbers, requirement_numbers,
  repeated_from, check_numbers, range_from, check_steps,
}

-- Strictly rising.
Rising : List ℕ → Type 0
Rising [] = Unit
Rising (n ∷ []) = Unit
Rising (n ∷ m ∷ ms) = (n < m) × Rising (m ∷ ms)

contains-place_number :
    (n m : ℕ) (ms : List ℕ)
    → contains_number n (place_number m ms) ≡ ((m == n) || contains_number n ms)
unfolding contains_number place_number
contains-place_number n m [] = refl
contains-place_number n m (k ∷ ks) = ground (arith, contains-place_number n m ks)

contains-sorted_set :
    (n : ℕ) (ns : List ℕ) → contains_number n (sorted_set ns) ≡ contains_number n ns
unfolding contains_number sorted_set
contains-sorted_set n [] = refl
contains-sorted_set n (m ∷ ms) =
    ground (arith, contains-place_number n m (sorted_set ms), contains-sorted_set n ms)

-- A lower bound of the first element.
Above : ℕ → List ℕ → Type 0
Above n [] = Unit
Above n (m ∷ ms) = n < m

Rising-cons : (n : ℕ) (ms : List ℕ) → Above n ms → Rising ms → Rising (n ∷ ms)
unfolding Above Rising
Rising-cons n [] a r = tt
Rising-cons n (m ∷ ms) a r = (a, r)

Rising-tail : (n : ℕ) (ms : List ℕ) → Rising (n ∷ ms) → Above n ms × Rising ms
unfolding Above Rising
Rising-tail n [] r = (tt, tt)
Rising-tail n (m ∷ ms) r = r

Above-place_number : (n m : ℕ) (ms : List ℕ) → n < m → Above n ms → Above n (place_number m ms)
unfolding Above place_number
Above-place_number n m [] l a = l
Above-place_number n m (k ∷ ks) l a = ground (arith, l, a)

place_number-Rising : (m : ℕ) (ms : List ℕ) → Rising ms → Rising (place_number m ms)
unfolding place_number Rising Above
place_number-Rising m [] r = tt
place_number-Rising m (k ∷ ks) r =
    let (above, rising) = Rising-tail k ks r in
    let ih = place_number-Rising m ks rising in
    elim (Bool-cases (ltb m k)) [
      | inl l ↦
          let here : m ∷ k ∷ ks ≡ place_number m (k ∷ ks) = ground (arith, l) in
          subst (λ ns. Rising ns) here (Rising-cons m (k ∷ ks) (ground (arith, l)) r)
      | inr l ↦ elim (Bool-cases (m == k)) [
        | inl e ↦
            let there : k ∷ ks ≡ place_number m (k ∷ ks) = ground (arith, l, e) in
            subst (λ ns. Rising ns) there r
        | inr e ↦
            let later : k ∷ place_number m ks ≡ place_number m (k ∷ ks) = ground (arith, l, e) in
            subst (λ ns. Rising ns) later
              (Rising-cons k (place_number m ks)
                (Above-place_number k m ks (ground (arith, l, e)) above) ih)
      ]
    ]

Rising-contains : (n m : ℕ) (ms : List ℕ) → n ≤ m → Rising (m ∷ ms) → contains_number n ms ≡ false
unfolding contains_number Rising
Rising-contains n m [] l r = refl
Rising-contains n m (k ∷ ks) l r =
    ground (arith, l, r.0, Rising-contains n k ks (omega (arith, r.0)) r.1)

length-place_number :
    (m : ℕ) (ms : List ℕ)
    → Rising ms
    → length (place_number m ms) ≡ (if contains_number m ms then length ms else length ms + 1)
unfolding place_number contains_number
length-place_number m [] r = omega arith
length-place_number m (k ∷ ks) r =
    ground (arith, length-place_number m ks (Rising-tail k ks r).1, Rising-contains m k ks)

sorted_set-Rising : (ns : List ℕ) → Rising (sorted_set ns)
unfolding sorted_set Rising
sorted_set-Rising [] = tt
sorted_set-Rising (n ∷ ns) = place_number-Rising n (sorted_set ns) (sorted_set-Rising ns)

length-sorted_set-le : (ns : List ℕ) → length (sorted_set ns) ≤ length ns
unfolding sorted_set
length-sorted_set-le [] = omega arith
length-sorted_set-le (n ∷ ns) =
    ground
      (arith, length-sorted_set-le ns, length-place_number n (sorted_set ns) (sorted_set-Rising ns))

count-contains : (n : ℕ) (ns : List ℕ) → contains_number n ns ≡ false → count_number n ns ≡ 0
unfolding contains_number count_number
count-contains n [] h = refl
count-contains n (m ∷ ms) h = ground (arith, h, count-contains n ms)

contains-count : (n : ℕ) (ns : List ℕ) → contains_number n ns ≡ true → 1 ≤ count_number n ns
unfolding contains_number count_number
contains-count n [] h = absurd (cc h)
contains-count n (m ∷ ms) h = ground (arith, h, contains-count n ms)

-- A list as long as its set has no number twice.
distinct-count :
    (n : ℕ) (ns : List ℕ)
    → length (sorted_set ns) ≡ length ns
    → count_number n ns ≡ (if contains_number n ns then 1 else 0)
unfolding sorted_set contains_number count_number
distinct-count n [] h = refl
distinct-count n (m ∷ ms) h =
    let size = length-place_number m (sorted_set ms) (sorted_set-Rising ms) in
    let bound = length-sorted_set-le ms in
    let fresh : contains_number m (sorted_set ms) ≡ false = ground (arith, h, size, bound) in
    let fresh' : contains_number m ms ≡ false = sym (contains-sorted_set m ms) ∙ fresh in
    let ih = distinct-count n ms (ground (arith, h, size, fresh)) in
    elim (Bool-cases (m == n)) [
      | inl e ↦
          let same : m ≡ n = ground (arith, e) in
          let none_n = subst (λ k. contains_number k ms ≡ false) same fresh' in
          ground (arith, e, none_n, count-contains n ms none_n)
      | inr e ↦ ground (arith, e, ih)
    ]

place_number-some : (n : ℕ) (ns : List ℕ) → place_number n ns ≢ []
unfolding place_number
place_number-some n [] h = cc h
place_number-some n (m ∷ ms) h = ground (arith, h)

repeated_from-count :
    (nums ns : List ℕ) (n : ℕ)
    → repeated_from nums ns ≡ []
    → contains_number n ns ≡ true
    → count_number n nums ≤ 1
unfolding repeated_from contains_number
repeated_from-count nums [] n h i = absurd (cc i)
repeated_from-count nums (m ∷ ms) n h i = elim (Bool-cases (ltb 1 (count_number m nums))) [
  | inl l ↦ absurd (place_number-some m (repeated_from nums ms) (ground (arith, l, h)))
  | inr l ↦ elim (Bool-cases (m == n)) [
    | inl e ↦
        let same : m ≡ n = ground (arith, e) in
        subst (λ k. count_number k nums ≤ 1) same (ground (arith, l))
    | inr e ↦ repeated_from-count nums ms n (ground (arith, l, h)) (ground (arith, e, i))
  ]
]

no_repeats : (ns : List ℕ) → Clean (map number_repeated ns) → ns ≡ []
unfolding Clean
no_repeats [] h = refl
no_repeats (n ∷ ns) h = absurd (cc (h.0))

-- The numbers of the nodes and slots of a puzzle that raise no error are the numbers of its
-- requirements, each as often: at most once.
pub numbers_permuted :
    (p : Puzzle) (n : ℕ)
    → Clean (check_numbers p)
    → (count_number n (diagram_numbers p) ≡ count_number n (requirement_numbers p))
      × (count_number n (requirement_numbers p) ≤ 1)
unfolding check_numbers
numbers_permuted p n h =
    let nums = diagram_numbers p in
    let reqs = requirement_numbers p in
    let (repeated, rest) = Clean-append _ _ h in
    let (unique, sets) = Clean-append _ _ rest in
    let size =
      Clean-when (not (length (sorted_set reqs) == length reqs)) requirements_repeated refl
        unique in
    let equal =
      Clean-when (not (text_eq (sorted_set nums) (sorted_set reqs)))
        (numbers_differ (sorted_set nums) (sorted_set reqs)) refl sets in
    let same : sorted_set nums ≡ sorted_set reqs =
      (text_eq_iff (sorted_set nums) (sorted_set reqs)).0 (ground (arith, equal)) in
    let members : contains_number n nums ≡ contains_number n reqs =
      sym (contains-sorted_set n nums) ∙ ap (contains_number n) same ∙ contains-sorted_set n reqs in
    let once = distinct-count n reqs (ground (arith, size)) in
    elim (Bool-cases (contains_number n nums)) [
      | inl c ↦ ground (
        arith,
        once,
        members,
        c,
        contains-count n nums c,
        repeated_from-count nums nums n (no_repeats (repeated_from nums nums) repeated) c,
      )
      | inr c ↦ ground (arith, once, members, c, count-contains n nums c)
    ]

contains-range_from :
    (n first count : ℕ)
    → contains_number n (range_from first count) ≡ (leb first n && ltb n (first + count))
unfolding contains_number range_from
contains-range_from n first zero = ground arith
contains-range_from n first (suc count) = ground (arith, contains-range_from n (first + 1) count)

-- The steps of the arrows of a puzzle that raise no error are 1, 2, ... up to their number, each once.
pub steps_counted :
    (steps : List ℕ) (n : ℕ)
    → Clean (check_steps steps)
    → count_number n steps ≡ (if leb 1 n && leb n (length steps) then 1 else 0)
unfolding check_steps
steps_counted steps n h =
    let (unique, gaps) = Clean-append _ _ h in
    let size =
      Clean-when (not (length (sorted_set steps) == length steps)) steps_repeated refl unique in
    let range =
      Clean-when (not (text_eq (sorted_set steps) (range_from 1 (length (sorted_set steps)))))
        (steps_gap steps) refl gaps in
    let same : sorted_set steps ≡ range_from 1 (length (sorted_set steps)) =
      (text_eq_iff _ _).0 (ground (arith, range)) in
    let sizes : length (sorted_set steps) ≡ length steps = ground (arith, size) in
    let found =
      sym (contains-sorted_set n steps)
      ∙ ap (contains_number n) same
      ∙ contains-range_from n 1 (length (sorted_set steps)) in
    ground (arith, distinct-count n steps sizes, found, sizes)
