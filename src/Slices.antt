-- ===== src/Slices.antt =====
-- Lemmas on slices, filters and searches of lists.
use eleeveon_schools_backend.Prelude.{
  find, map, change_first, includes, String, eq_iff, ◌===◌, ℕ, zero, suc, ◌≤◌, ◌<◌, ◌≡◌, refl, Bool,
  true, false, some, List, [], ◌∷◌, ◌++◌, ltb, filter, take, drop, last, length, All, arith,
  Bool-cases, inl, inr, ap, ◌∙◌, if◌then◌else◌,
}

pub take-take {ℓ} : {A : Type ℓ} (n : ℕ) (xs : List A) → take n (take (suc n) xs) ≡ take n xs
take-take zero xs = refl
take-take (suc n) [] = refl
take-take (suc n) (x ∷ xs) = ground (arith, take-take n xs)

pub take-all {ℓ} : {A : Type ℓ} (n : ℕ) (xs : List A) → length xs ≤ n → take n xs ≡ xs
take-all zero [] h = refl
take-all zero (x ∷ xs) h = absurd (omega arith)
take-all (suc n) [] h = refl
take-all (suc n) (x ∷ xs) h = ground (arith, take-all n xs (omega arith))

pub take-drop {ℓ} : {A : Type ℓ} (n : ℕ) (xs : List A) → take n xs ++ drop n xs ≡ xs
take-drop zero xs = refl
take-drop (suc n) [] = refl
take-drop (suc n) (x ∷ xs) = ground (arith, take-drop n xs)

pub length-take-suc {ℓ} :
    {A : Type ℓ} (n : ℕ) (xs : List A) → ltb n (length (take (suc n) xs)) ≡ ltb n (length xs)
length-take-suc n [] = refl
length-take-suc zero (x ∷ xs) = ground arith
length-take-suc (suc n) (x ∷ xs) = ground (arith, length-take-suc n xs)

pub length-drop {ℓ} :
    {A : Type ℓ} (n : ℕ) (xs : List A) → n < length xs → length (drop (suc n) xs) < length xs
length-drop n [] h = absurd (omega arith)
length-drop zero (x ∷ xs) h = omega arith
length-drop (suc n) (x ∷ xs) h = let shorter = length-drop n xs (omega arith) in omega arith

module _ {ℓ κ} {A : Type ℓ} (P : A → Type κ) where
  pub All-last : (n : ℕ) (xs : List A) (x : A) → All P xs → last (take n xs) ≡ some x → P x
  All-last zero xs x all h = cc
  All-last (suc n) [] x all h = cc
  All-last (suc zero) (y ∷ ys) x (p, ps) h = let e : y ≡ x = ground arith in rw (← e) p
  All-last (suc (suc n)) (y ∷ []) x (p, ps) h = let e : y ≡ x = ground arith in rw (← e) p
  All-last (suc (suc n)) (y ∷ z ∷ zs) x (p, ps) h = All-last (suc n) (z ∷ zs) x ps h

  pub All-filter : (q : A → Bool) (xs : List A) → All P xs → All P (filter q xs)
  All-filter q [] all = tt
  All-filter q (x ∷ xs) (p, ps) = elim (Bool-cases (q x)) [
    | inl e ↦ rw e (p, All-filter q xs ps)
    | inr e ↦ rw e (All-filter q xs ps)
  ]

pub All-filter_self {ℓ} :
    {A : Type ℓ} (q : A → Bool) (xs : List A) → All (λ x. q x ≡ true) (filter q xs)
All-filter_self q [] = tt
All-filter_self q (x ∷ xs) = elim (Bool-cases (q x)) [
  | inl e ↦ rw e (e, All-filter_self q xs)
  | inr e ↦ rw e (All-filter_self q xs)
]

pub filter-filter {ℓ} :
    {A : Type ℓ} (p q : A → Bool) (xs : List A)
    → ((x : A) → p x ≡ true → q x ≡ true)
    → filter p (filter q xs) ≡ filter p xs
filter-filter p q [] h = refl
filter-filter p q (x ∷ xs) h = elim (Bool-cases (q x)) [
  | inl e ↦ rw e (ground (arith, filter-filter p q xs h))
  | inr e ↦
      let no : p x ≡ false = not_true (p x) (λ t. absurd (cc (h x t))) in
      rw e (rw no (filter-filter p q xs h))
]
  where
    not_true : (b : Bool) → ¬ (b ≡ true) → b ≡ false
    not_true true n = absurd (n refl)
    not_true false n = refl

pub filter_none {ℓ} :
    {A : Type ℓ} (p : A → Bool) (xs : List A) → All (λ x. p x ≡ true) xs → filter p xs ≡ xs
filter_none p [] all = refl
filter_none p (x ∷ xs) (h, hs) = rw h (ap (λ ys. x ∷ ys) (filter_none p xs hs))

pub length-filter {ℓ} : {A : Type ℓ} (q : A → Bool) (xs : List A) → length (filter q xs) ≤ length xs
length-filter q [] = omega arith
length-filter q (x ∷ xs) = ground (arith, length-filter q xs)

pub find-true {ℓ} :
    {A : Type ℓ} (p : A → Bool) (xs : List A) (x : A) → find p xs ≡ some x → p x ≡ true
find-true p [] x h = cc
find-true p (y ∷ ys) x h = elim (Bool-cases (p y)) [
  | inl e ↦ let same : y ≡ x = ground arith in rw same at e
  | inr e ↦ find-true p ys x (ground arith)
]

-- a search in a filtered list, whose tests do not see what `change` changes
module _ {ℓ} {A : Type ℓ} (p q : A → Bool) where
  pub find-filter : (xs : List A) (x : A) → find p (filter q xs) ≡ some x → q x ≡ true
  find-filter [] x h = cc
  find-filter (y ∷ ys) x h = elim (Bool-cases (q y)) [
    | inl e ↦ elim (Bool-cases (p y)) [
      | inl f ↦
          let found : find p (y ∷ filter q ys) ≡ some x = rw e at h in
          let same : y ≡ x = ground arith in rw same at e
      | inr f ↦
          let found : find p (y ∷ filter q ys) ≡ some x = rw e at h in
          find-filter ys x (rw f at found)
    ]
    | inr e ↦ find-filter ys x (rw e at h)
  ]

  pub find-filter-map :
      (change : A → A) (xs : List A) (x : A)
      → ((y : A) → p (change y) ≡ p y)
      → ((y : A) → q (change y) ≡ q y)
      → find p (filter q xs) ≡ some x
      → find p (filter q (map change xs)) ≡ some (change x)
  find-filter-map change [] x hp hq h = cc
  find-filter-map change (y ∷ ys) x hp hq h = elim (Bool-cases (q y)) [
    | inl e ↦ elim (Bool-cases (p y)) [
      | inl f ↦
          let found : find p (y ∷ filter q ys) ≡ some x = rw e at h in
          let same : y ≡ x = ground arith in rw (hq y) (rw e (rw (hp y) (rw f (rw same refl))))
      | inr f ↦
          let found : find p (y ∷ filter q ys) ≡ some x = rw e at h in
          let rest = find-filter-map change ys x hp hq (rw f at found) in
          rw (hq y) (rw e (rw (hp y) (rw f rest)))
    ]
    | inr e ↦ rw (hq y) (rw e (find-filter-map change ys x hp hq (rw e at h)))
  ]

-- what holds of each of some words holds of a text that is among them
pub includes-All :
    (P : String → Type 0) (word : String) (words : List String)
    → All P words
    → includes word words ≡ true
    → P word
includes-All P word [] all h = cc
includes-All P word (w ∷ words) (p, ps) h = elim (Bool-cases (word === w)) [
  | inl e ↦ rw ((eq_iff word w).0 e) p
  | inr e ↦ includes-All P word words ps (rw e at h)
]

-- the update of the row that a search finds
module _ {ℓ} {A : Type ℓ} (p : A → Bool) (change : A → A) where
  pub All-change_first {κ} :
      (P : A → Type κ) (xs : List A) (x : A)
      → All P xs
      → find p xs ≡ some x
      → P (change x)
      → All P (change_first p change xs)
  All-change_first P [] x all h changed = tt
  All-change_first P (y ∷ ys) x (q, qs) h changed = elim (Bool-cases (p y)) [
    | inl e ↦ let same : y ≡ x = ground arith in rw e (rw same changed, qs)
    | inr e ↦ rw e (q, All-change_first P ys x qs (rw e at h) changed)
  ]

  pub find-change_first :
      (xs : List A) (x : A)
      → find p xs ≡ some x
      → p (change x) ≡ true
      → find p (change_first p change xs) ≡ some (change x)
  find-change_first [] x h kept = cc
  find-change_first (y ∷ ys) x h kept = elim (Bool-cases (p y)) [
    | inl e ↦ let same : y ≡ x = ground arith in rw e (rw same (rw kept refl))
    | inr e ↦ rw e (rw e (find-change_first ys x (rw e at h) kept))
  ]

pub All-find {ℓ κ} :
    {A : Type ℓ} (P : A → Type κ) (p : A → Bool) (xs : List A) (x : A)
    → All P xs
    → find p xs ≡ some x
    → P x
All-find P p [] x all h = cc
All-find P p (y ∷ ys) x (q, qs) h = elim (Bool-cases (p y)) [
  | inl e ↦ let same : y ≡ x = ground arith in rw (← same) q
  | inr e ↦ All-find P p ys x qs (rw e at h)
]

module _ {ℓ κ} {A : Type ℓ} (P : A → Type κ) where
  pub All-take : (n : ℕ) (xs : List A) → All P xs → All P (take n xs)
  All-take zero xs all = tt
  All-take (suc n) [] all = tt
  All-take (suc n) (x ∷ xs) (p, ps) = (p, All-take n xs ps)

  pub All-append : (xs ys : List A) → All P xs → All P ys → All P (xs ++ ys)
  All-append [] ys all later = later
  All-append (x ∷ xs) ys (p, ps) later = (p, All-append xs ys ps later)

pub All-map {ℓ κ μ} :
    {A : Type ℓ} (P : A → Type κ) (Q : A → Type μ) (xs : List A)
    → ((x : A) → P x → Q x)
    → All P xs
    → All Q xs
All-map P Q [] h all = tt
All-map P Q (x ∷ xs) h (p, ps) = (h x p, All-map P Q xs h ps)

-- the row that a search finds, after an update of every row that it could find
pub find-map_if {ℓ} :
    {A : Type ℓ} (p : A → Bool) (change : A → A) (xs : List A) (x : A)
    → ((y : A) → p (change y) ≡ p y)
    → find p xs ≡ some x
    → find p (map (λ y. if p y then change y else y) xs) ≡ some (change x)
find-map_if p change [] x keeps h = cc
find-map_if p change (y ∷ ys) x keeps h = elim (Bool-cases (p y)) [
  | inl e ↦
      let same : y ≡ x = ground arith in
      let kept : p (change y) ≡ true = keeps y ∙ e in
      rw e (rw kept (ap (λ z. some (change z)) same))
  | inr e ↦ rw e (rw e (find-map_if p change ys x keeps (ground arith)))
]
