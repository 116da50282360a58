-- ===== src/Syntax/Names.antt =====
-- Qualified names: the last `::` of a name, as `strings.LastIndex` finds it.
use tcl_lsp_nvim.Base.{
  ℕ, suc, ◌+◌, false, [], ◌∷◌, ◌++◌, ◌≡◌, refl, sym, ap, ◌∙◌, inl, inr, arith, none, some,
  if◌then◌else◌, Bytes, length, take, drop, has_prefix, last_index_of, Option-cases, subst,
  Bool-cases, if_on, if_off, take-append, drop-append, drop-add,
}
use tcl_lsp_nvim.Syntax.{global_ns}

-- A name as what stands in front of its last `::` and what stands behind it.
pub record IsSplit (name front last : Bytes) : Type 0 where
  pub splits : name ≡ front ++ (b':' ∷ b':' ∷ last)
  pub unqualified : last_index_of last global_ns ≡ none
  pub no_colon : has_prefix last (b':' ∷ []) ≡ false

last_index_of-some :
    (c : ℕ) (s : Bytes) (i : ℕ)
    → last_index_of s global_ns ≡ some i
    → last_index_of (c ∷ s) global_ns ≡ some (suc i)
unfolding last_index_of
last_index_of-some c s i h = rw h refl

last_index_of-none :
    (c : ℕ) (s : Bytes)
    → last_index_of s global_ns ≡ none
    → last_index_of (c ∷ s) global_ns ≡ (if has_prefix (c ∷ s) global_ns then some 0 else none)
unfolding last_index_of
last_index_of-none c s h = rw h refl

pub IsSplit-last_index_of :
    (front last : Bytes)
    → last_index_of last global_ns ≡ none
    → has_prefix last (b':' ∷ []) ≡ false
    → last_index_of (front ++ (b':' ∷ b':' ∷ last)) global_ns ≡ some (length front)
unfolding has_prefix
IsSplit-last_index_of [] last h p =
    last_index_of-none b':' (b':' ∷ last) (last_index_of-none b':' last h ∙ if_off _ _ _ p)
IsSplit-last_index_of (c ∷ front) last h p =
    last_index_of-some c (front ++ (b':' ∷ b':' ∷ last)) (length front)
      (IsSplit-last_index_of front last h p)

abbrev Found : Bytes → ℕ → Type 0
Found s i = (front : Bytes) × (last : Bytes) × IsSplit s front last × (i ≡ length front)

tail_none :
    (c : ℕ) (s : Bytes)
    → last_index_of (c ∷ s) global_ns ≡ none
    → (last_index_of s global_ns ≡ none) × (has_prefix (c ∷ s) global_ns ≡ false)
tail_none c s h = elim (Option-cases (last_index_of s global_ns)) [
  | inl n ↦ (
    n,
    elim (Bool-cases (has_prefix (c ∷ s) global_ns)) [
      | inl q ↦ let clash = sym (last_index_of-none c s n ∙ if_on _ _ _ q) ∙ h in cc
      | inr q ↦ q
    ],
  )
  | inr (j, e) ↦ let clash = sym (last_index_of-some c s j e) ∙ h in cc
]

prefix-Found :
    (c : ℕ) (s : Bytes) (i : ℕ)
    → last_index_of s global_ns ≡ none
    → (if has_prefix (c ∷ s) global_ns then some 0 else none) ≡ some i
    → Found (c ∷ s) i
unfolding has_prefix
prefix-Found c [] i n h = ground arith
prefix-Found c (d ∷ t) i n h = elim (Bool-cases (has_prefix (c ∷ d ∷ t) global_ns)) [
  | inl q ↦
      let first : c ≡ b':' = ground arith in
      let second : d ≡ b':' = ground arith in
      let zero_index = sym (if_on _ _ _ q) ∙ h in
      let (rest, apart) = tail_none d t n in
      let no : has_prefix t (b':' ∷ []) ≡ false = ground arith in
      (
        [],
        t,
        record {
          splits = ap (λ x. x ∷ d ∷ t) first ∙ ap (λ x. b':' ∷ x ∷ t) second;
          unqualified = rest;
          no_colon = no;
        },
        cc,
      )
  | inr q ↦ let clash = sym (if_off _ _ _ q) ∙ h in cc
]

last_index_of-Found : (s : Bytes) (i : ℕ) → last_index_of s global_ns ≡ some i → Found s i
unfolding last_index_of
last_index_of-Found [] i h = cc
last_index_of-Found (c ∷ s) i h = elim (Option-cases (last_index_of s global_ns)) [
  | inl n ↦ prefix-Found c s i n (sym (last_index_of-none c s n) ∙ h)
  | inr (j, e) ↦
      let (front, last, split, size) = last_index_of-Found s j e in
      let next = sym (last_index_of-some c s j e) ∙ h in
      (
        c ∷ front,
        last,
        record {
          splits = ap (◌∷◌ c) split.splits;
          unqualified = split.unqualified;
          no_colon = split.no_colon;
        },
        cc,
      )
]

-- Where the last `::` is found at `i`, the name is split there.
pub last_index_of-IsSplit :
    (s : Bytes) (i : ℕ) → last_index_of s global_ns ≡ some i → IsSplit s (take i s) (drop (i + 2) s)
last_index_of-IsSplit s i h =
    let (front, last, split, size) = last_index_of-Found s i h in
    let sized : take i s ≡ front =
      ap (λ n. take n s) size
      ∙ ap (take (length front)) split.splits
      ∙ take-append front (b':' ∷ b':' ∷ last) in
    let behind : drop (i + 2) s ≡ last =
      drop-add i 2 s
      ∙ ap (drop 2) (
          ap (λ n. drop n s) size
          ∙ ap (drop (length front)) split.splits
          ∙ drop-append front (b':' ∷ b':' ∷ last)) in
    subst (λ f. IsSplit s f (drop (i + 2) s)) (sym sized)
      (subst (IsSplit s front) (sym behind) split)
