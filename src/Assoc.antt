-- ===== src/Assoc.antt =====
-- Go maps with string keys, as association lists: a key that is not there reads as a default.
use tcl_lsp_nvim.Base.{
  List, [], ◌∷◌, ◌≡◌, refl, arith, Option, none, some, if◌then◌else◌, Bytes, eql, eql_iff,
}

abbrev pub Assoc {ℓ} : Type ℓ → Type ℓ
Assoc V = List (Bytes × V)

module _ {ℓ} {V : Type ℓ} where
  unfoldable pub lookup : Bytes → Assoc V → Option V
  unfolding eql
  lookup k [] = none
  lookup k ((j, v) ∷ m) = if eql j k then some v else lookup k m

  -- `m[k]`, with the zero value `d`.
  unfoldable pub find_or : V → Bytes → Assoc V → V
  unfolding eql
  find_or d k [] = d
  find_or d k ((j, v) ∷ m) = if eql j k then v else find_or d k m

  -- `m[k] = f(m[k])`, with the zero value `d`.
  unfoldable pub alter : V → Bytes → (V → V) → Assoc V → Assoc V
  unfolding eql
  alter d k f [] = (k, f d) ∷ []
  alter d k f ((j, v) ∷ m) = if eql j k then (j, f v) ∷ m else (j, v) ∷ alter d k f m

  -- `delete(m, k)`
  unfoldable pub delete : Bytes → Assoc V → Assoc V
  unfolding eql
  delete k [] = []
  delete k ((j, v) ∷ m) = let rest = delete k m in if eql j k then rest else (j, v) ∷ rest

  pub find_or-alter :
      (d : V) (k j : Bytes) (f : V → V) (m : Assoc V)
      → find_or d j (alter d k f m) ≡ (if eql k j then f (find_or d j m) else find_or d j m)
  unfolding find_or alter
  find_or-alter d k j f [] = refl
  find_or-alter d k j f ((i, v) ∷ m) =
      ground (arith, eql_iff k j, eql_iff i k, eql_iff i j, find_or-alter d k j f m)

  pub lookup-alter :
      (d : V) (k j : Bytes) (f : V → V) (m : Assoc V)
      → lookup j (alter d k f m) ≡ (if eql k j then some (f (find_or d k m)) else lookup j m)
  unfolding lookup find_or alter
  lookup-alter d k j f [] = refl
  lookup-alter d k j f ((i, v) ∷ m) =
      ground (arith, eql_iff k j, eql_iff i k, eql_iff i j, lookup-alter d k j f m)

  pub find_or-delete :
      (d : V) (k j : Bytes) (m : Assoc V)
      → find_or d j (delete k m) ≡ (if eql k j then d else find_or d j m)
  unfolding find_or delete
  find_or-delete d k j [] = ground arith
  find_or-delete d k j ((i, v) ∷ m) =
      ground (arith, eql_iff k j, eql_iff i k, eql_iff i j, find_or-delete d k j m)
