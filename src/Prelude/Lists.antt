-- ===== src/Prelude/Lists.antt =====
-- Lists measured by native numbers, and lists of numbers as sets and as texts.
use Prim.Native.Nat.{ℕ, zero, suc, ◌+◌, ◌-◌, ◌≤◌}
use mathlib.Core.Path.{◌≡◌, refl, sym, ap, ◌∙◌}
use mathlib.Core.Logic.{inl, inr}
use mathlib.Core.Bool.{Bool, true, false, not, ◌&&◌, ◌||◌}
use mathlib.Core.List.{List, [], ◌∷◌, ◌++◌}
use native.Mathlib.Omega.{arith}
use cpu_manager_go.Prelude.Tests.{◌==◌, if◌then◌else◌, Bool-cases}

module _ {ℓ} {A : Type ℓ} where
  abbrev pub length : List A → ℕ
  length [] = 0
  length (x ∷ xs) = suc (length xs)

  abbrev pub drop : ℕ → List A → List A
  drop zero xs = xs
  drop (suc n) [] = []
  drop (suc n) (x ∷ xs) = drop n xs

  abbrev pub is_empty : List A → Bool
  is_empty [] = true
  is_empty (x ∷ xs) = false

  -- `drop_while`, `any` and `all` of the library do not run.
  abbrev pub any : (A → Bool) → List A → Bool
  any p [] = false
  any p (x ∷ xs) = p x || any p xs

  abbrev pub select : (A → Bool) → List A → List A
  select p [] = []
  select p (x ∷ xs) = let rest = select p xs in if p x then x ∷ rest else rest

  -- The leading elements that pass a test.
  abbrev pub take_while : (A → Bool) → List A → List A
  take_while p [] = []
  take_while p (x ∷ xs) = let rest = take_while p xs in if p x then x ∷ rest else []

  pub length-append : (xs ys : List A) → length (xs ++ ys) ≡ length xs + length ys
  length-append [] ys = omega arith
  length-append (x ∷ xs) ys = omega (arith, length-append xs ys)

  pub length-drop : (n : ℕ) (xs : List A) → length (drop n xs) ≡ length xs - n
  length-drop zero xs = omega arith
  length-drop (suc n) [] = omega arith
  length-drop (suc n) (x ∷ xs) = omega (arith, length-drop n xs)

  pub drop_append : (n : ℕ) (xs ys : List A) → n ≤ length xs → drop n (xs ++ ys) ≡ drop n xs ++ ys
  drop_append zero xs ys h = refl
  drop_append (suc n) [] ys h = absurd (omega arith)
  drop_append (suc n) (x ∷ xs) ys h = drop_append n xs ys (omega arith)

  drop-nil : (n : ℕ) → drop n [] ≡ []
  drop-nil zero = refl
  drop-nil (suc n) = refl

  pub drop-drop : (m n : ℕ) (xs : List A) → drop m (drop n xs) ≡ drop (n + m) xs
  drop-drop m zero xs = ap (λ k. drop k xs) (omega arith)
  drop-drop m (suc n) [] = drop-nil m ∙ sym (drop-nil (suc n + m))
  drop-drop m (suc n) (x ∷ xs) =
      drop-drop m n xs
      ∙ ap (λ k. drop k (x ∷ xs)) (let e : suc (n + m) ≡ suc n + m = omega arith in e)

-- Sets of numbers: the keys of a Go map whose values carry nothing.
abbrev pub member : ℕ → List ℕ → Bool
member k [] = false
member k (x ∷ xs) = k == x || member k xs

abbrev pub insert : ℕ → List ℕ → List ℕ
insert k xs = if member k xs then xs else xs ++ k ∷ []

abbrev pub insert_all : List ℕ → List ℕ → List ℕ
insert_all [] xs = xs
insert_all (k ∷ ks) xs = insert_all ks (insert k xs)

abbrev pub remove : ℕ → List ℕ → List ℕ
remove k [] = []
remove k (x ∷ xs) = let rest = remove k xs in if k == x then rest else x ∷ rest

pub member-append : (k : ℕ) (xs ys : List ℕ) → member k (xs ++ ys) ≡ (member k xs || member k ys)
member-append k [] ys = refl
member-append k (x ∷ xs) ys = ground (arith, member-append k xs ys)

pub member-insert : (j k : ℕ) (xs : List ℕ) → member j (insert k xs) ≡ (j == k || member j xs)
member-insert j k xs = ground (arith, member-append j xs (k ∷ []))

pub member-remove : (j k : ℕ) (xs : List ℕ) → member j (remove k xs) ≡ (not (j == k) && member j xs)
member-remove j k [] = ground arith
member-remove j k (x ∷ xs) = ground (arith, member-remove j k xs)

-- No number is listed twice, as in the keys of a map.
abbrev pub Distinct : List ℕ → Type 0
Distinct [] = Unit {0}
Distinct (x ∷ xs) = (member x xs ≡ false) × Distinct xs

pub member-select :
    (k : ℕ) (p : ℕ → Bool) (xs : List ℕ) → member k (select p xs) ≡ (p k && member k xs)
member-select k p [] = ground arith
member-select k p (x ∷ xs) = elim (Bool-cases (k == x)) [
  | inl same ↦ (let e : k ≡ x = ground arith in rw e (ground (arith, member-select x p xs)))
  | inr other ↦ ground (arith, member-select k p xs)
]

pub Distinct-select : (p : ℕ → Bool) (xs : List ℕ) → Distinct xs → Distinct (select p xs)
Distinct-select p [] d = tt
Distinct-select p (x ∷ xs) d = ground (arith, Distinct-select p xs d.1, member-select x p xs)

pub Distinct-snoc :
    (k : ℕ) (xs : List ℕ) → member k xs ≡ false → Distinct xs → Distinct (xs ++ k ∷ [])
Distinct-snoc k [] h d = (refl, tt)
Distinct-snoc k (x ∷ xs) h d = ground (arith, Distinct-snoc k xs, member-append x xs (k ∷ []))

pub Distinct-insert : (k : ℕ) (xs : List ℕ) → Distinct xs → Distinct (insert k xs)
Distinct-insert k xs d = ground (arith, Distinct-snoc k xs)

pub Distinct-insert_all : (ks xs : List ℕ) → Distinct xs → Distinct (insert_all ks xs)
Distinct-insert_all [] xs d = d
Distinct-insert_all (k ∷ ks) xs d = Distinct-insert_all ks (insert k xs) (Distinct-insert k xs d)

pub member-insert_all :
    (j : ℕ) (ks xs : List ℕ) → member j (insert_all ks xs) ≡ (member j ks || member j xs)
member-insert_all j [] xs = refl
member-insert_all j (k ∷ ks) xs =
    ground (arith, member-insert_all j ks (insert k xs), member-insert j k xs)
