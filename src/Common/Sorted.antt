-- ===== src/Common/Sorted.antt =====
-- sort.SliceStable and sort.Strings: a stable insertion sort by the test `less`.
use mathlib.Core.Path.{◌≡◌, refl}
use mathlib.Core.Logic.{inl, inr}
use mathlib.Core.Bool.{Bool, true, false}
use mathlib.Core.List.{List, [], ◌∷◌}
use Prim.Native.Nat.{suc}
use native.Mathlib.Omega.{arith}
use qemu_agent.Common.Tests.{if◌then◌else◌, Bool-cases}
use qemu_agent.Common.Lists.{All, Pairs, length}

module _ {ℓ} {A : Type ℓ} (less : A → A → Bool) where
  unfoldable pub insert_by : A → List A → List A
  insert_by x [] = x ∷ []
  insert_by x (y ∷ ys) = if less y x then y ∷ insert_by x ys else x ∷ y ∷ ys

  unfoldable pub sort_by : List A → List A
  sort_by [] = []
  sort_by (x ∷ xs) = insert_by x (sort_by xs)

  -- `x` may stand before `y`.
  abbrev pub Ordered : A → A → Type 0
  Ordered x y = less y x ≡ false

  length-insert_by : (x : A) (xs : List A) → length (insert_by x xs) ≡ suc (length xs)
  unfolding insert_by
  length-insert_by x [] = refl
  length-insert_by x (y ∷ ys) = ground (arith, length-insert_by x ys)

  pub length-sort_by : (xs : List A) → length (sort_by xs) ≡ length xs
  unfolding sort_by
  length-sort_by [] = refl
  length-sort_by (x ∷ xs) = omega (arith, length-insert_by x (sort_by xs), length-sort_by xs)

  module _ {κ} (P : A → Type κ) where
    pub All-insert_by : (x : A) (xs : List A) → P x → All P xs → All P (insert_by x xs)
    unfolding insert_by
    All-insert_by x [] h k = (h, tt)
    All-insert_by x (y ∷ ys) h k = ground (arith, All-insert_by x ys h k.1)

    pub All-sort_by : (xs : List A) → All P xs → All P (sort_by xs)
    unfolding sort_by
    All-sort_by [] h = tt
    All-sort_by (x ∷ xs) h = All-insert_by x (sort_by xs) h.0 (All-sort_by xs h.1)

  module _ (asymm : (x y : A) → less x y ≡ true → Ordered x y)
      (chain : (x y z : A) → Ordered x y → Ordered y z → Ordered x z) where
    All-chain : (x y : A) (zs : List A) → Ordered x y → All (Ordered y) zs → All (Ordered x) zs
    All-chain x y [] h k = tt
    All-chain x y (z ∷ zs) h k = (chain x y z h k.0, All-chain x y zs h k.1)

    insert_by-Ordered : (x : A) (xs : List A) → Pairs Ordered xs → Pairs Ordered (insert_by x xs)
    unfolding insert_by
    insert_by-Ordered x [] h = (tt, tt)
    insert_by-Ordered x (y ∷ ys) h = elim (Bool-cases (less y x)) [
      | inl later ↦
          rw (later, insert_by)
            (All-insert_by (Ordered y) x ys (asymm y x later) h.0, insert_by-Ordered x ys h.1)
      | inr first ↦ rw (first, insert_by) ((first, All-chain x y ys first h.0), h)
    ]

    pub sort_by-Ordered : (xs : List A) → Pairs Ordered (sort_by xs)
    unfolding sort_by
    sort_by-Ordered [] = tt
    sort_by-Ordered (x ∷ xs) = insert_by-Ordered x (sort_by xs) (sort_by-Ordered xs)

  module _ {κ} (R : A → A → Type κ) (flip : (x y : A) → R x y → R y x) where
    Pairs-insert_by : (x : A) (xs : List A) → All (R x) xs → Pairs R xs → Pairs R (insert_by x xs)
    unfolding insert_by
    Pairs-insert_by x [] h k = (tt, tt)
    Pairs-insert_by x (y ∷ ys) h k = elim (Bool-cases (less y x)) [
      | inl later ↦
          rw (later, insert_by)
            (All-insert_by (R y) x ys (flip x y h.0) k.0, Pairs-insert_by x ys h.1 k.1)
      | inr first ↦ rw (first, insert_by) (h, k)
    ]

    pub Pairs-sort_by : (xs : List A) → Pairs R xs → Pairs R (sort_by xs)
    unfolding sort_by
    Pairs-sort_by [] h = tt
    Pairs-sort_by (x ∷ xs) h =
        Pairs-insert_by x (sort_by xs) (All-sort_by (R x) xs h.0) (Pairs-sort_by xs h.1)
