-- ===== src/Prelude/Text/Split.antt =====
-- `strings.Join`, and how splitting and trimming undo it.
use Prim.Native.Nat.{ℕ}
use mathlib.Core.Path.{◌≡◌, refl}
use mathlib.Core.Bool.{Bool, true, not}
use mathlib.Core.List.{List, [], ◌∷◌, ◌++◌, append-nil}
use native.Mathlib.Omega.{arith}
use cpu_manager_go.Prelude.Tests.{◌==◌}
use cpu_manager_go.Prelude.Lists.{take_while}
use cpu_manager_go.Prelude.Text.{
  Bytes, is_space, trim_left, trim_right, trim_space, split_on, split,
}

unfoldable pub glue : ℕ → List Bytes → Bytes
glue sep [] = []
glue sep (p ∷ parts) = sep ∷ p ++ glue sep parts

-- `strings.Join(parts, sep)` for a separator of one byte.
unfoldable pub join : ℕ → List Bytes → Bytes
unfolding glue
join sep [] = []
join sep (p ∷ parts) = p ++ glue sep parts

-- All bytes pass the test.
unfoldable pub AllBytes : (ℕ → Bool) → Bytes → Type 0
AllBytes p [] = Unit {0}
AllBytes p (c ∷ s) = (p c ≡ true) × AllBytes p s

-- The same for every text of a list.
unfoldable pub AllTexts : (ℕ → Bool) → List Bytes → Type 0
AllTexts p [] = Unit {0}
AllTexts p (s ∷ parts) = AllBytes p s × AllTexts p parts

pub AllBytes-append :
    (p : ℕ → Bool) (s t : Bytes) → AllBytes p s → AllBytes p t → AllBytes p (s ++ t)
unfolding AllBytes
AllBytes-append p [] t h k = k
AllBytes-append p (c ∷ s) t h k = (h.0, AllBytes-append p s t h.1 k)

pub AllBytes-weaken :
    (p q : ℕ → Bool) (s : Bytes) → ((c : ℕ) → p c ≡ true → q c ≡ true) → AllBytes p s → AllBytes q s
unfolding AllBytes
AllBytes-weaken p q [] w h = tt
AllBytes-weaken p q (c ∷ s) w h = (w c h.0, AllBytes-weaken p q s w h.1)

pub AllTexts-weaken :
    (p q : ℕ → Bool) (parts : List Bytes)
    → ((c : ℕ) → p c ≡ true → q c ≡ true)
    → AllTexts p parts
    → AllTexts q parts
unfolding AllTexts
AllTexts-weaken p q [] w h = tt
AllTexts-weaken p q (s ∷ parts) w h = (AllBytes-weaken p q s w h.0, AllTexts-weaken p q parts w h.1)

pub AllTexts-append :
    (p : ℕ → Bool) (xs ys : List Bytes) → AllTexts p xs → AllTexts p ys → AllTexts p (xs ++ ys)
unfolding AllTexts
AllTexts-append p [] ys h k = k
AllTexts-append p (s ∷ xs) ys h k = (h.0, AllTexts-append p xs ys h.1 k)

pub AllBytes-glue :
    (p : ℕ → Bool) (sep : ℕ) (parts : List Bytes)
    → p sep ≡ true
    → AllTexts p parts
    → AllBytes p (glue sep parts)
unfolding AllBytes AllTexts glue
AllBytes-glue p sep [] h k = tt
AllBytes-glue p sep (s ∷ parts) h k =
    (h, AllBytes-append p s (glue sep parts) k.0 (AllBytes-glue p sep parts h k.1))

pub AllBytes-join :
    (p : ℕ → Bool) (sep : ℕ) (parts : List Bytes)
    → p sep ≡ true
    → AllTexts p parts
    → AllBytes p (join sep parts)
unfolding AllBytes AllTexts join
AllBytes-join p sep [] h k = tt
AllBytes-join p sep (s ∷ parts) h k =
    AllBytes-append p s (glue sep parts) k.0 (AllBytes-glue p sep parts h k.1)

abbrev pub other_than : ℕ → ℕ → Bool
other_than sep c = not (c == sep)

split_on-append :
    (sep : ℕ) (s t : Bytes)
    → AllBytes (other_than sep) s
    → split_on sep (s ++ t) ≡ (s ++ (split_on sep t).0, (split_on sep t).1)
unfolding split_on AllBytes
split_on-append sep [] t h = refl
split_on-append sep (c ∷ s) t h = ground (arith, split_on-append sep s t h.1)

split_on-glue :
    (sep : ℕ) (parts : List Bytes)
    → AllTexts (other_than sep) parts
    → split_on sep (glue sep parts) ≡ ([], parts)
unfolding split_on glue AllTexts
split_on-glue sep [] h = refl
split_on-glue sep (s ∷ parts) h =
    ground
      (arith, split_on-append sep s (glue sep parts) h.0, split_on-glue sep parts h.1, append-nil s)

-- Splitting what was joined gives the parts back, if there is a part and none holds the separator.
pub split-join :
    (sep : ℕ) (s : Bytes) (parts : List Bytes)
    → AllTexts (other_than sep) (s ∷ parts)
    → split sep (join sep (s ∷ parts)) ≡ s ∷ parts
unfolding join AllTexts
split-join sep s parts h =
    ground
      (arith, split_on-append sep s (glue sep parts) h.0, split_on-glue sep parts h.1, append-nil s)

split_on-AllTexts :
    (sep : ℕ) (s : Bytes)
    → AllBytes (other_than sep) (split_on sep s).0 × AllTexts (other_than sep) (split_on sep s).1
unfolding split_on AllBytes AllTexts
split_on-AllTexts sep [] = (tt, tt)
split_on-AllTexts sep (c ∷ s) = ground (arith, split_on-AllTexts sep s)

-- The parts of a text do not hold the separator.
pub split-AllTexts : (sep : ℕ) (s : Bytes) → AllTexts (other_than sep) (split sep s)
unfolding AllTexts
split-AllTexts sep s = split_on-AllTexts sep s

abbrev pub no_space : ℕ → Bool
no_space c = not (is_space c)

trim_left-eq : (s : Bytes) → AllBytes no_space s → trim_left s ≡ s
unfolding trim_left AllBytes
trim_left-eq [] h = refl
trim_left-eq (c ∷ s) h = ground (arith, trim_left-eq s h.1)

trim_right-eq : (s : Bytes) → AllBytes no_space s → trim_right s ≡ s
unfolding trim_right AllBytes
trim_right-eq [] h = refl
trim_right-eq (c ∷ []) h = ground arith
trim_right-eq (c ∷ d ∷ s) h = ground (arith, trim_right-eq (d ∷ s) h.1)

-- A text without blanks is not trimmed.
pub trim_space-eq : (s : Bytes) → AllBytes no_space s → trim_space s ≡ s
unfolding trim_space
trim_space-eq s h = ground (arith, trim_left-eq s h, trim_right-eq s h)

-- A text whose bytes all pass the test is taken whole.
pub take_while-eq : (p : ℕ → Bool) (s : Bytes) → AllBytes p s → take_while p s ≡ s
unfolding AllBytes
take_while-eq p [] h = refl
take_while-eq p (c ∷ s) h = ground (arith, take_while-eq p s h.1)
