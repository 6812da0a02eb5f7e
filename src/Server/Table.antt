-- ===== src/Server/Table.antt =====
-- The map that the server keeps its users in (`DashMap<String, V>` of dust-devil/src/users.rs),
-- as an association list: every operation of the source locks the entry it works on.
use dust_devil.Base.{
  ℕ, ◌+◌, ◌≡◌, refl, Option, none, some, List, [], ◌∷◌, str_eq, str_eq_iff, true, if◌then◌else◌,
  arith,
}
use dust_devil.Io.{Text}

abbrev pub Table : Type 0 → Type 0
Table V = List (Text × V)

pub str_eq_refl : (k : Text) → str_eq k k ≡ true
str_eq_refl k = (str_eq_iff k k).1 refl

module _ {V : Type 0} where
  unfoldable pub lookup : Text → Table V → Option V
  lookup k [] = none
  lookup k ((j, v) ∷ l) = if str_eq j k then some v else lookup k l

  unfoldable pub without : Text → Table V → Table V
  without k [] = []
  without k ((j, v) ∷ l) = let rest = without k l in if str_eq j k then rest else (j, v) ∷ rest

  unfoldable pub put : Text → V → Table V → Table V
  put k v l = (k, v) ∷ without k l

  -- No key has two entries.
  abbrev pub IsMap : Table V → Type 0
  IsMap [] = Unit
  IsMap ((k, v) ∷ l) = (lookup k l ≡ none) × IsMap l

  -- A weight summed over the entries.
  unfoldable pub total : (V → ℕ) → Table V → ℕ
  total w [] = 0
  total w ((k, v) ∷ l) = w v + total w l

  unfoldable pub weight : (V → ℕ) → Option V → ℕ
  weight w none = 0
  weight w (some v) = w v

  pub lookup-without :
      (k j : Text) (l : Table V)
      → lookup j (without k l) ≡ (if str_eq k j then none else lookup j l)
  unfolding lookup without
  lookup-without k j [] = ground arith
  lookup-without k j ((i, v) ∷ l) =
      ground (arith, lookup-without k j l, str_eq_iff i k, str_eq_iff i j, str_eq_iff k j)

  pub lookup-put :
      (k j : Text) (v : V) (l : Table V)
      → lookup j (put k v l) ≡ (if str_eq k j then some v else lookup j l)
  unfolding lookup put
  lookup-put k j v l = ground (arith, lookup-without k j l)

  pub without-IsMap : (k : Text) (l : Table V) → IsMap l → IsMap (without k l)
  unfolding lookup without
  without-IsMap k [] h = h
  without-IsMap k ((j, v) ∷ l) h = ground (arith, without-IsMap k l h.1, lookup-without k j l, h.0)

  pub put-IsMap : (k : Text) (v : V) (l : Table V) → IsMap l → IsMap (put k v l)
  unfolding put
  put-IsMap k v l h = (ground (arith, lookup-without k k l, str_eq_refl k), without-IsMap k l h)

  without_absent : (k : Text) (l : Table V) → lookup k l ≡ none → without k l ≡ l
  unfolding lookup without
  without_absent k [] h = refl
  without_absent k ((j, v) ∷ l) h = ground (arith, without_absent k l, h)

  pub total-without :
      (w : V → ℕ) (k : Text) (l : Table V)
      → IsMap l
      → total w (without k l) + weight w (lookup k l) ≡ total w l
  unfolding lookup without total weight
  total-without w k [] h = omega arith
  total-without w k ((j, v) ∷ l) h =
      ground (arith, total-without w k l h.1, without_absent k l, str_eq_iff j k, h.0)

  pub total-put :
      (w : V → ℕ) (k : Text) (v : V) (l : Table V)
      → IsMap l
      → total w (put k v l) + weight w (lookup k l) ≡ total w l + w v
  unfolding put total
  total-put w k v l h = omega (arith, total-without w k l h)
