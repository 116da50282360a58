-- ===== src/VarRef/Spelling.antt =====
-- What `parseVarRef` reads: a reference's text spells its name.
use mathlib.Core.Option
use tcl_lsp_nvim.Base.{
  ℕ, zero, suc, ◌+◌, ◌≤◌, ◌<◌, true, [], ◌∷◌, ◌++◌, ◌≡◌, ◌≢◌, ◌⊎◌, inl, inr, refl, ap, Option, none,
  some, ◌==◌, if◌then◌else◌, Bytes, length, take, drop, has_prefix, length-drop, arith, if_cases,
}
use tcl_lsp_nvim.VarRef.{
  name_run, colons, segments, to_brace, braced_ref, name_ref, bare_ref, parse_var_ref,
}

-- `$name` and `${name}`
abbrev pub SpellsVar : Bytes → Bytes → Type 0
SpellsVar name shape = (shape ≡ b'$' ∷ name) ⊎ (shape ≡ b'$' ∷ b'{' ∷ (name ++ b'}' ∷ []))

pub name_run-le : (s : Bytes) → name_run s ≤ length s
unfolding name_run
name_run-le [] = omega arith
name_run-le (c ∷ s) = ground (arith, name_run-le s)

has_prefix-colons : (s : Bytes) → has_prefix s colons ≡ true → 2 ≤ length s
unfolding has_prefix
has_prefix-colons [] h = cc
has_prefix-colons (c ∷ []) h = ground arith
has_prefix-colons (c ∷ d ∷ s) h = omega arith

pub segments-le : (fuel : ℕ) (s : Bytes) → segments fuel s ≤ length s
unfolding segments
segments-le zero s = omega arith
segments-le (suc fuel) s = ground (
  arith,
  has_prefix-colons s,
  name_run-le (drop 2 s),
  length-drop 2 s,
  length-drop (2 + name_run (drop 2 s)) s,
  segments-le fuel (drop (2 + name_run (drop 2 s)) s),
)

-- The index that `to_brace` finds is that of a `}`.
abbrev ClosesAt : Bytes → Option ℕ → Type 0
ClosesAt s none = Unit
ClosesAt s (some j) = (suc j ≤ length s) × (take (suc j) s ≡ take j s ++ b'}' ∷ [])

to_brace-ClosesAt : (s : Bytes) → ClosesAt s (to_brace s)
unfolding to_brace
to_brace-ClosesAt [] = tt
to_brace-ClosesAt (c ∷ s) =
    if_cases (ClosesAt (c ∷ s)) (c == b'}') _ _ (λ h. (omega arith, ground arith))
      λ _. later (to_brace s) (to_brace-ClosesAt s)
  where
    later : (j : Option ℕ) → ClosesAt s j → ClosesAt (c ∷ s) (Option.map suc j)
    later none h = tt
    later (some j) (le, e) = (omega arith, ap (◌∷◌ c) e)

-- What a call at the text `s` behind a `$` returns: the caller goes on inside the text and behind
-- the `$`, and a reference is spelled by the bytes that are passed.
abbrev pub Reads : Bytes → Option Bytes × ℕ → Type 0
Reads s (none, size) = (0 < size) × (size ≤ suc (length s))
Reads s (some name, size) =
    (0 < size) × (size ≤ suc (length s)) × (name ≢ []) × SpellsVar name (take size (b'$' ∷ s))

take-ne-nil : (n : ℕ) (s : Bytes) → 0 < n → 0 < length s → take n s ≢ []
take-ne-nil zero s h k = absurd (omega arith)
take-ne-nil (suc n) [] h k = absurd (omega arith)
take-ne-nil (suc n) (c ∷ s) h k = λ e. cc

braced_ref-Reads : (s : Bytes) (j : Option ℕ) → ClosesAt s j → Reads (b'{' ∷ s) (braced_ref s j)
braced_ref-Reads s none h = (omega arith, omega arith)
braced_ref-Reads s (some zero) h = (omega arith, omega arith)
braced_ref-Reads s (some (suc j)) (le, e) = (
  omega arith,
  omega arith,
  take-ne-nil (suc j) s (omega arith) (omega arith),
  inr (ap (λ t. b'$' ∷ b'{' ∷ t) e),
)

name_ref-Reads :
    (s : Bytes) (first size : ℕ) → size ≤ length s → first ≤ size → Reads s (name_ref s first size)
name_ref-Reads s first size h k =
    if_cases (Reads s) (first == 0) _ _ (λ _. (omega arith, omega arith))
      λ e.
        let pos : 0 < first = ground arith in
        (omega arith, omega arith, take-ne-nil size s (omega arith) (omega arith), inl refl)

lead-le : (s : Bytes) → (if has_prefix s colons then 2 else 0) ≤ length s
lead-le s =
    if_cases (λ n. n ≤ length s) (has_prefix s colons) 2 0 (has_prefix-colons s) λ _. omega arith

bare_ref-Reads : (s : Bytes) → Reads s (bare_ref s)
bare_ref-Reads s =
    let lead = if has_prefix s colons then 2 else 0 in
    let first = name_run (drop lead s) in
    let behind = drop (lead + first) s in
    name_ref-Reads s first (lead + first + segments (length s) behind)
      (omega (
        arith,
        lead-le s,
        name_run-le (drop lead s),
        length-drop lead s,
        segments-le (length s) behind,
        length-drop (lead + first) s,
      ))
      (omega arith)

-- Behind a dollar sign the caller always goes on behind that sign and inside the text, and a
-- reference that is read has a name that is not empty and is spelled by the bytes passed, as
-- $name or ${name}.
pub parse_var_ref-Reads : (s : Bytes) → Reads s (parse_var_ref s)
unfolding parse_var_ref
parse_var_ref-Reads [] = (omega arith, omega arith)
parse_var_ref-Reads (c ∷ s) =
    if_cases (Reads (c ∷ s)) (c == b'{') _ _
      (λ h.
        let e : c ≡ b'{' = ground arith in
        rw e (braced_ref-Reads s (to_brace s) (to_brace-ClosesAt s)))
      λ _. bare_ref-Reads (c ∷ s)
