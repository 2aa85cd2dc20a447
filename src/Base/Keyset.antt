-- ===== src/Base/Keyset.antt =====
-- Sorted lists and what a keyset condition selects of them: the rows after a given one.
use mathlib.Core.Path.{◌≡◌, refl}
use mathlib.Core.Logic.{inl, inr}
use mathlib.Core.Bool.{Bool, true, false, ◌&&◌}
use mathlib.Core.List.{List, [], ◌∷◌, ◌++◌}
use native.Mathlib.Omega.{arith}
use afghanistan_news.Base.Tests.{if◌then◌else◌, Bool-cases}
use afghanistan_news.Base.Lists.{All, select}
use afghanistan_news.Base.Sorting.{insert_by, order_by, All-order_by, All-insert_by}

-- A relation between every element and each one behind it.
abbrev pub Pairwise {ℓ κ} : {A : Type ℓ} → (A → A → Type κ) → List A → Type κ
Pairwise R [] = Unit
Pairwise R (x ∷ xs) = All (R x) xs × Pairwise R xs

module _ {ℓ} {A : Type ℓ} (before : A → A → Bool) where
  abbrev pub Before : A → A → Type 0
  Before x y = before x y ≡ true

  abbrev pub Sorted : List A → Type 0
  Sorted xs = Pairwise Before xs

  -- Two rows that the order tells apart.
  abbrev pub Apart : A → A → Type 0
  Apart x y = before x y ≡ false → before y x ≡ true

module _ {ℓ} {A : Type ℓ} where
  pub All-select_of : (P : A → Type 0) (p : A → Bool) (xs : List A) → All P xs → All P (select p xs)
  All-select_of P p [] h = tt
  All-select_of P p (x ∷ xs) h = elim (Bool-cases (p x)) [
    | inl e ↦ rw e (h.0, All-select_of P p xs h.1)
    | inr e ↦ rw e (All-select_of P p xs h.1)
  ]

  pub Pairwise-select :
      (R : A → A → Type 0) (p : A → Bool) (xs : List A) → Pairwise R xs → Pairwise R (select p xs)
  Pairwise-select R p [] h = tt
  Pairwise-select R p (x ∷ xs) h = elim (Bool-cases (p x)) [
    | inl e ↦ rw e (All-select_of (R x) p xs h.0, Pairwise-select R p xs h.1)
    | inr e ↦ rw e (Pairwise-select R p xs h.1)
  ]

pub All-append {ℓ} :
    {A : Type ℓ} (P : A → Type 0) (xs ys : List A) → All P xs → All P ys → All P (xs ++ ys)
All-append P [] ys h k = k
All-append P (x ∷ xs) ys h k = (h.0, All-append P xs ys h.1 k)

module _ {ℓ} {A : Type ℓ} {P Q : A → Type 0} where
  pub All-imp : (xs : List A) → ((x : A) → P x → Q x) → All P xs → All Q xs
  All-imp [] f h = tt
  All-imp (x ∷ xs) f h = (f x h.0, All-imp xs f h.1)

module _ {ℓ} {A : Type ℓ} (before : A → A → Bool)
    (trans : (x y z : A) → before x y ≡ true → before y z ≡ true → before x z ≡ true) where
  insert_by-Sorted :
      (x : A) (xs : List A)
      → All (Apart before x) xs
      → Sorted before xs
      → Sorted before (insert_by before x xs)
  unfolding insert_by
  insert_by-Sorted x [] apart h = (tt, tt)
  insert_by-Sorted x (y ∷ ys) apart h = elim (Bool-cases (before x y)) [
    | inl e ↦ rw e ((e, All-imp ys (λ z p. trans x y z e p) h.0), h)
    | inr e ↦ rw e (
      All-insert_by (Before before y) before x ys (apart.0 e) h.0,
      insert_by-Sorted x ys apart.1 h.1,
    )
  ]

  pub order_by-Sorted :
      (xs : List A) → Pairwise (Apart before) xs → Sorted before (order_by before xs)
  unfolding order_by
  order_by-Sorted [] h = tt
  order_by-Sorted (x ∷ xs) h =
      insert_by-Sorted x (order_by before xs) (All-order_by (Apart before x) before xs h.0)
        (order_by-Sorted xs h.1)

  insert_by-front :
      (x : A) (xs : List A) → All (Before before x) xs → insert_by before x xs ≡ x ∷ xs
  unfolding insert_by
  insert_by-front x [] h = refl
  insert_by-front x (y ∷ ys) h = rw h.0

  select-insert_by :
      (p : A → Bool) (x : A) (xs : List A)
      → Sorted before xs
      → select p (insert_by before x xs)
        ≡ (if p x then insert_by before x (select p xs) else select p xs)
  unfolding insert_by
  select-insert_by p x [] h = elim (Bool-cases (p x)) [ inl e ↦ rw e | inr e ↦ rw e ]
  select-insert_by p x (y ∷ ys) h = elim (Bool-cases (before x y)) [
    | inl e ↦ elim (Bool-cases (p y)) [
      | inl q ↦ ground (arith)
      | inr q ↦ ground (
        arith,
        insert_by-front x (select p ys)
            (All-select_of (Before before x) p ys (All-imp ys (λ z r. trans x y z e r) h.0)),
      )
    ]
    | inr e ↦ ground (arith, select-insert_by p x ys h.1)
  ]

  -- WHERE before ORDER BY, or after it.
  pub select-order_by :
      (p : A → Bool) (xs : List A)
      → Pairwise (Apart before) xs
      → select p (order_by before xs) ≡ order_by before (select p xs)
  unfolding order_by
  select-order_by p [] h = refl
  select-order_by p (x ∷ xs) h = ground (
    arith,
    select-insert_by p x (order_by before xs) (order_by-Sorted xs h.1),
    select-order_by p xs h.1,
  )

  select_all : (p : A → Bool) (xs : List A) → All (λ y. p y ≡ true) xs → select p xs ≡ xs
  select_all p [] h = refl
  select_all p (x ∷ xs) h = rw (h.0, select_all p xs h.1)

  All-middle : (P : A → Type 0) (xs : List A) (a : A) (ys : List A) → All P (xs ++ (a ∷ ys)) → P a
  All-middle P [] a ys h = h.0
  All-middle P (x ∷ xs) a ys h = All-middle P xs a ys h.1

  not_behind :
      (irrefl : (y : A) → before y y ≡ false) (x a : A) → before x a ≡ true → before a x ≡ false
  not_behind irrefl x a h = elim (Bool-cases (before a x)) [
    | inl e ↦ cc (trans x a x h e, irrefl x)
    | inr e ↦ e
  ]

  -- The rows that an order puts behind a row of a sorted list are those that stand behind it.
  pub select-append_behind :
      (irrefl : (y : A) → before y y ≡ false) (xs : List A) (a : A) (ys : List A)
      → Sorted before (xs ++ (a ∷ ys))
      → select (before a) (xs ++ (a ∷ ys)) ≡ ys
  select-append_behind irrefl [] a ys h = rw (irrefl a, select_all (before a) ys h.0)
  select-append_behind irrefl (x ∷ xs) a ys h =
      rw (not_behind irrefl x a (All-middle (Before before x) xs a ys h.0))
        (select-append_behind irrefl xs a ys h.1)

pub select-and {ℓ} :
    {A : Type ℓ} (p q : A → Bool) (xs : List A)
    → select (λ x. p x && q x) xs ≡ select q (select p xs)
select-and p q [] = refl
select-and p q (x ∷ xs) = ground (arith, select-and p q xs)
