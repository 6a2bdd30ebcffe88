-- ===== src/Base/Keyed.antt =====
-- Maps with numbers for keys: what the code keeps by a frame's or a call's id.
use Prim.Native.Nat.{ℕ}
use mathlib.Core.Path.{◌≡◌, refl}
use mathlib.Core.Logic.{◌≢◌}
use mathlib.Core.Option.{Option, none, some}
use mathlib.Core.List.{List, [], ◌∷◌}
use native.Mathlib.Omega.{arith}
use busrt.Base.Tests.{◌==◌, if◌then◌else◌}

abbrev pub Table {ℓ} : Type ℓ → Type ℓ
Table V = List (ℕ × V)

module _ {ℓ} {V : Type ℓ} where
  unfoldable pub get : ℕ → Table V → Option V
  get k [] = none
  get k ((k', v) ∷ t) = let rest = get k t in if k == k' then some v else rest

  unfoldable pub del : ℕ → Table V → Table V
  del k [] = []
  del k ((k', v) ∷ t) = let rest = del k t in if k == k' then rest else (k', v) ∷ rest

  unfoldable pub put : ℕ → V → Table V → Table V
  unfolding del
  put k v t = (k, v) ∷ del k t

  pub get-del : (k : ℕ) (t : Table V) → get k (del k t) ≡ none
  unfolding get del
  get-del k [] = refl
  get-del k ((k', v) ∷ t) = ground (arith, get-del k t)

  pub get-del_other : (k j : ℕ) (t : Table V) → k ≢ j → get k (del j t) ≡ get k t
  unfolding get del
  get-del_other k j [] h = refl
  get-del_other k j ((k', v) ∷ t) h = ground (arith, get-del_other k j t h)

  pub get-put : (k : ℕ) (v : V) (t : Table V) → get k (put k v t) ≡ some v
  unfolding get put
  get-put k v t = ground arith

  pub get-put_other : (k j : ℕ) (v : V) (t : Table V) → k ≢ j → get k (put j v t) ≡ get k t
  unfolding get put
  get-put_other k j v t h = ground (arith, get-del_other k j t h)
