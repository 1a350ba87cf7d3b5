-- ===== src/Base/Dict.antt =====
-- Rust's `HashMap`, and `HashSet<T>` as a map into the one-element type. The entries are private:
-- the rest of the development has the laws. The program never iterates over one, so that the order
-- of the entries does not matter.
use mathlib.Core.Path.{◌≡◌, refl}
use mathlib.Core.Logic.{◌≢◌}
use mathlib.Core.Option.{Option, none, some}
use mathlib.Core.List.{List, [], ◌∷◌}
use native.Mathlib.Omega.{arith}
use decent_share.Base.Equality.{Eq, ◌==◌, ==-refl, ==-ne, if◌then◌else◌}

pub record Dict (K V : Type 0) : Type 0 where
  entries : List (K × V)

module _ {K V : Type 0} where
  unfoldable pub empty : Dict K V
  empty = record { entries = [] }

module _ {K V : Type 0} ⦃e : Eq K⦄ where
  lookup : K → List (K × V) → Option V
  lookup k [] = none
  lookup k ((j, v) ∷ m) = if j == k then some v else lookup k m

  without : K → List (K × V) → List (K × V)
  without k [] = []
  without k ((j, v) ∷ m) = let rest = without k m in if j == k then rest else (j, v) ∷ rest

  lookup-without :
      (k j : K) (m : List (K × V)) → lookup j (without k m) ≡ (if k == j then none else lookup j m)
  unfolding lookup without
  lookup-without k j [] = ground arith
  lookup-without k j ((i, v) ∷ m) =
      ground (arith, e.beq_iff k j, e.beq_iff i k, e.beq_iff i j, lookup-without k j m)

  -- `map.get(&k)`
  unfoldable pub get : Dict K V → K → Option V
  unfolding lookup
  get d k = lookup k d.entries

  -- `map.remove(&k)`, without the value that it returns, which is `get d k`
  unfoldable pub remove : Dict K V → K → Dict K V
  unfolding without
  remove d k = record { entries = without k d.entries }

  -- `map.insert(k, v)`
  unfoldable pub insert : Dict K V → K → V → Dict K V
  unfolding without
  insert d k v = record { entries = (k, v) ∷ without k d.entries }

  pub get-remove :
      (d : Dict K V) (k j : K) → get (remove d k) j ≡ (if k == j then none else get d j)
  unfolding get remove
  get-remove d k j = lookup-without k j d.entries

  pub get-insert :
      (d : Dict K V) (k j : K) (v : V) → get (insert d k v) j ≡ (if k == j then some v else get d j)
  unfolding get insert
  get-insert d k j v = ground (arith, lookup-without k j d.entries)

  pub get-empty : (k : K) → get (empty {V = V}) k ≡ none
  unfolding get empty
  get-empty k = refl

  pub get-insert_self : (d : Dict K V) (k : K) (v : V) → get (insert d k v) k ≡ some v
  get-insert_self d k v = ground (arith, get-insert d k k v, ==-refl k)

  pub get-remove_self : (d : Dict K V) (k : K) → get (remove d k) k ≡ none
  get-remove_self d k = ground (arith, get-remove d k k, ==-refl k)

  pub get-insert_ne : (d : Dict K V) (k j : K) (v : V) → k ≢ j → get (insert d k v) j ≡ get d j
  get-insert_ne d k j v h = ground (arith, get-insert d k j v, ==-ne k j h)

  pub get-remove_ne : (d : Dict K V) (k j : K) → k ≢ j → get (remove d k) j ≡ get d j
  get-remove_ne d k j h = ground (arith, get-remove d k j, ==-ne k j h)

pub ruleset dict_laws = (get-empty, get-remove, get-insert)
