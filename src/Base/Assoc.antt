-- ===== src/Base/Assoc.antt =====
-- A map as an association list: `std::unordered_map` and `std::map`, whose order of iteration no
-- theorem depends on.
use minichat.Base.{
  ◌≡◌, refl, ap, ◌∙◌, sym, inl, inr, true, Option, none, some, List, [], ◌∷◌, arith, Eq, ◌==◌,
  if◌then◌else◌, Bool-cases,
}

abbrev pub Assoc {ℓ κ} : Type ℓ → Type κ → Type (ℓ ⊔ κ)
Assoc K V = List (K × V)

module _ {ℓ} {K : Type ℓ} ⦃e : Eq K⦄ where
  ne_of_eq : (i k j : K) → (i == k) ≡ true → (i == j) ≡ (k == j)
  ne_of_eq i k j h = ap (λ t. t == j) ((e.beq_iff i k).0 h)

  eq_of_eqs : (i k j : K) → (i == j) ≡ true → (k == j) ≡ true → (i == k) ≡ true
  eq_of_eqs i k j p q = (e.beq_iff i k).1 ((e.beq_iff i j).0 p ∙ sym ((e.beq_iff k j).0 q))

module _ {ℓ κ} {K : Type ℓ} {V : Type κ} ⦃e : Eq K⦄ where
  -- m[k] = v
  unfoldable pub insert : K → V → Assoc K V → Assoc K V
  insert k v [] = (k, v) ∷ []
  insert k v ((i, w) ∷ rest) = if i == k then (k, v) ∷ rest else (i, w) ∷ insert k v rest

  -- m.erase(k)
  unfoldable pub erase : K → Assoc K V → Assoc K V
  erase k [] = []
  erase k ((j, w) ∷ m) = let rest = erase k m in if j == k then rest else (j, w) ∷ rest

  -- m.find(k)
  unfoldable pub lookup : K → Assoc K V → Option V
  lookup k [] = none
  lookup k ((i, w) ∷ rest) = if i == k then some w else lookup k rest

  pub lookup-insert :
      (k j : K) (v : V) (m : Assoc K V)
      → lookup j (insert k v m) ≡ (if k == j then some v else lookup j m)
  unfolding insert lookup
  lookup-insert k j v [] = refl
  lookup-insert k j v ((i, w) ∷ m) = elim (Bool-cases (i == k)) [
    | inl h ↦ rw h (ground (arith, ne_of_eq i k j h))
    | inr h ↦ rw h (ground (arith, lookup-insert k j v m, eq_of_eqs i k j))
  ]

  pub lookup-erase :
      (k j : K) (m : Assoc K V) → lookup j (erase k m) ≡ (if k == j then none else lookup j m)
  unfolding lookup erase
  lookup-erase k j [] = ground arith
  lookup-erase k j ((i, w) ∷ m) = elim (Bool-cases (i == k)) [
    | inl h ↦ rw h (ground (arith, lookup-erase k j m, ne_of_eq i k j h))
    | inr h ↦ rw h (ground (arith, lookup-erase k j m, eq_of_eqs i k j))
  ]
