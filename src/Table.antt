-- ===== src/Table.antt =====
-- A `dict` with text keys, as the list of its entries in insertion order.
use roc_robot_sdk.Base.{
  String, ◌≡◌, refl, ap, Bool, Option, none, some, List, [], ◌∷◌, ◌++◌, ◌==◌, arith, mem,
  if◌then◌else◌, is_some,
}

abbrev pub Table {ℓ} : Type ℓ → Type ℓ
Table V = List (String × V)

module _ {ℓ} {V : Type ℓ} where
  -- `d.get(k)`
  unfoldable pub find : String → Table V → Option V
  find k [] = none
  find k ((j, v) ∷ d) = if k == j then some v else find k d

  -- `list(d)`
  unfoldable pub names : Table V → List String
  names [] = []
  names ((j, v) ∷ d) = j ∷ names d

  -- `k in d`
  abbrev pub has : String → Table V → Bool
  has k d = is_some (find k d)

module _ {ℓ} {V : Type ℓ} where
  pub has-names : (k : String) (d : Table V) → has k d ≡ mem k (names d)
  unfolding find names mem
  has-names k [] = refl
  has-names k ((j, v) ∷ d) = ground (arith, has-names k d)

  pub names-append : (d e : Table V) → names (d ++ e) ≡ names d ++ names e
  unfolding names
  names-append [] e = refl
  names-append ((j, v) ∷ d) e = ap (λ r. j ∷ r) (names-append d e)
