-- ===== src/Common/Assoc.antt =====
-- A Go map as an association list, over a key type with decidable equality.
use mathlib.Core.Path.{◌≡◌, refl}
use mathlib.Core.Logic.{ite}
use mathlib.Core.List.{List, [], ◌∷◌}
use mathlib.Core.Option.{Option, none, some}
use Prim.Native.Nat.{suc, ◌≤◌}
use native.Mathlib.Omega.{arith}
use qemu_agent.Common.Lists.{All, length}

module _ {ℓ} {K V : Type ℓ} (eq : Discrete K) where
  -- `v, ok := m[k]`
  unfoldable pub get : K → List (K × V) → Option V
  get k [] = none
  get k ((j, v) ∷ m) = ite (eq j k) (some v) (get k m)

  -- `m[k] = v`
  unfoldable pub put : K → V → List (K × V) → List (K × V)
  put k v [] = (k, v) ∷ []
  put k v ((j, w) ∷ m) = ite (eq j k) ((k, v) ∷ m) ((j, w) ∷ put k v m)

  -- `delete(m, k)`
  unfoldable pub remove : K → List (K × V) → List (K × V)
  remove k [] = []
  remove k ((j, v) ∷ m) = ite (eq j k) (remove k m) ((j, v) ∷ remove k m)

  pub get-put :
      (k j : K) (v : V) (m : List (K × V)) → get j (put k v m) ≡ ite (eq k j) (some v) (get j m)
  unfolding get put
  get-put k j v [] = refl
  get-put k j v ((i, w) ∷ m) = ground (arith, get-put k j v m)

  pub get-remove : (k j : K) (m : List (K × V)) → get j (remove k m) ≡ ite (eq k j) none (get j m)
  unfolding get remove
  get-remove k j [] = ground arith
  get-remove k j ((i, v) ∷ m) = ground (arith, get-remove k j m)

  pub length-put_old :
      (k : K) (v w : V) (m : List (K × V)) → get k m ≡ some w → length (put k v m) ≡ length m
  unfolding get put
  length-put_old k v w [] h = ground arith
  length-put_old k v w ((i, u) ∷ m) h = ground (arith, length-put_old k v w m)

  pub length-put_new : (k : K) (v : V) (m : List (K × V)) → length (put k v m) ≤ suc (length m)
  unfolding put
  length-put_new k v [] = omega arith
  length-put_new k v ((i, u) ∷ m) = ground (arith, length-put_new k v m)

  pub length-remove : (k : K) (m : List (K × V)) → length (remove k m) ≤ length m
  unfolding remove
  length-remove k [] = omega arith
  length-remove k ((i, u) ∷ m) = ground (arith, length-remove k m)

module _ {ℓ κ} {K V : Type ℓ} (eq : Discrete K) (P : K × V → Type κ) where
  pub All-put : (k : K) (v : V) (m : List (K × V)) → P (k, v) → All P m → All P (put eq k v m)
  unfolding put
  All-put k v [] p h = (p, tt)
  All-put k v ((i, w) ∷ m) p h = ground (arith, All-put k v m p h.1)

  pub All-remove : (k : K) (m : List (K × V)) → All P m → All P (remove eq k m)
  unfolding remove
  All-remove k [] h = tt
  All-remove k ((i, w) ∷ m) h = ground (arith, All-remove k m h.1)

  pub All-get : (k : K) (v : V) (m : List (K × V)) → All P m → get eq k m ≡ some v → P (k, v)
  unfolding get
  All-get k v [] h e = cc
  All-get k v ((i, w) ∷ m) h e = ground (arith, All-get k v m h.1)
