-- ===== src/GoMap.antt =====
-- Go's `map[K]V`, as a list of entries. A nil map is the empty one: reads agree, and the program
-- guards its writes. The order of the entries is one of the orders in which `range` may go.
use fngo.Prelude.{
  ◌≡◌, refl, Bool, true, false, Option, none, some, List, [], ◌∷◌, arith, Eq, ◌==◌, String,
  string_eq, get_or, if◌then◌else◌,
}

abbrev pub GoMap {ℓ κ} : Type ℓ → Type κ → Type (ℓ ⊔ κ)
GoMap K V = List (K × V)

-- a value if there is one, or else the other
abbrev pub or_else {ℓ} : {A : Type ℓ} → Option A → Option A → Option A
or_else none o = o
or_else (some a) o = some a

-- `l` has the item `k`
unfoldable pub contains {ℓ} : {K : Type ℓ} ⦃e : Eq K⦄ → List K → K → Bool
contains [] k = false
contains (j ∷ l) k = if j == k then true else contains l k

module _ {ℓ κ} {K : Type ℓ} {V : Type κ} ⦃e : Eq K⦄ where
  -- v, ok := m[k]
  unfoldable pub get : GoMap K V → K → Option V
  get [] k = none
  get ((j, v) ∷ m) k = if j == k then some v else get m k

  -- delete(m, k)
  unfoldable pub delete : GoMap K V → K → GoMap K V
  delete [] k = []
  delete ((j, v) ∷ m) k = let rest = delete m k in if j == k then rest else (j, v) ∷ rest

  -- m[k] = v
  unfoldable pub insert : GoMap K V → K → V → GoMap K V
  insert m k v = (k, v) ∷ delete m k

  -- for k, v := range u { m[k] = v }
  unfoldable pub insert_all : GoMap K V → GoMap K V → GoMap K V
  insert_all m [] = m
  insert_all m ((k, v) ∷ u) = insert (insert_all m u) k v

  -- for _, k := range keys { delete(m, k) }
  unfoldable pub delete_all : GoMap K V → List K → GoMap K V
  delete_all m [] = m
  delete_all m (k ∷ ks) = delete_all (delete m k) ks

  pub get-delete :
      (m : GoMap K V) (k j : K) → get (delete m k) j ≡ (if k == j then none else get m j)
  unfolding get delete
  get-delete [] k j = ground arith
  get-delete ((i, v) ∷ m) k j =
      ground (arith, get-delete m k j, e.same_iff i k, e.same_iff i j, e.same_iff k j)

  pub get-insert :
      (m : GoMap K V) (k : K) (v : V) (j : K)
      → get (insert m k v) j ≡ (if k == j then some v else get m j)
  unfolding get insert
  get-insert m k v j = ground (arith, get-delete m k j)

  pub get-insert_all :
      (m u : GoMap K V) (j : K) → get (insert_all m u) j ≡ or_else (get u j) (get m j)
  unfolding insert_all get
  get-insert_all m [] j = refl
  get-insert_all m ((k, v) ∷ u) j =
      ground (arith, get-insert (insert_all m u) k v j, get-insert_all m u j)

  pub get-delete_all :
      (m : GoMap K V) (ks : List K) (j : K)
      → get (delete_all m ks) j ≡ (if contains ks j then none else get m j)
  unfolding delete_all contains
  get-delete_all m [] j = refl
  get-delete_all m (k ∷ ks) j = ground (arith, get-delete_all (delete m k) ks j, get-delete m k j)

-- m[key] on a map of texts, which is empty where the key is missing
abbrev pub text_at : GoMap String String → String → String
text_at m key = get_or (get m key) ""
