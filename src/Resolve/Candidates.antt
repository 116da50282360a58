-- ===== src/Resolve/Candidates.antt =====
-- The candidates of a reference, each once, and the one that `Definition` and `References` agree on.
use mathlib.Core.List.{Memᴰ}
use mathlib.Core.List.Memᴰ
use tcl_lsp_nvim.Base.{
  Bool, true, false, ◌&&◌, ◌||◌, not, List, [], ◌∷◌, ◌++◌, ◌≡◌, ◌≢◌, refl, sym, ap, ◌∙◌, arith,
  Option, none, some, if◌then◌else◌, Bytes, drop, eql, eql_iff, one_of, see, if_cases, Bool-cases,
  inl, inr, ◌⊎◌, ◌↔◌, subst,
}
use tcl_lsp_nvim.Syntax.{qualify_name}
use tcl_lsp_nvim.Files.{ContextRef}
use tcl_lsp_nvim.Index.{Location}
use tcl_lsp_nvim.Resolve.{
  Workspace, is_command, is_qualified, dedup_into, bare_candidates, command_candidates, candidates,
  has_sites, lookup_scoped, first_defined, primary, or_primary, ref_fq,
}
use tcl_lsp_nvim.Resolve.Named.{
  IsAt, IsElsewhere, qualify_name-IsAt, IsAt-qualify_name, bare_candidates-named,
  IsNamed-bare_candidates,
}
use tcl_lsp_nvim.Resolve.Members.{method_in_class}
use tcl_lsp_nvim.Resolve.Explored.{has_sites-nil}
use tcl_lsp_nvim.Resolve.Targets.{in_method, first_sites, ref_sites}

-- No string comes twice.
unfoldable pub is_nodup : List Bytes → Bool
unfolding one_of
is_nodup [] = true
is_nodup (s ∷ names) = not (one_of s names) && is_nodup names

one_of-append : (s : Bytes) (a b : List Bytes) → one_of s (a ++ b) ≡ (one_of s a || one_of s b)
unfolding one_of
one_of-append s [] b = refl
one_of-append s (x ∷ a) b = ground (arith, one_of-append s a b)

one_of-see : (s x : Bytes) (a : List Bytes) → one_of s (see x a) ≡ (one_of s a || eql s x)
unfolding one_of
one_of-see s x a = ground (arith, one_of-append s a (x ∷ []), eql_iff s x)

is_nodup-append :
    (x : Bytes) (a : List Bytes)
    → is_nodup a ≡ true
    → one_of x a ≡ false
    → is_nodup (a ++ x ∷ []) ≡ true
unfolding is_nodup one_of
is_nodup-append x [] h e = refl
is_nodup-append x (y ∷ a) h e =
    ground (arith, is_nodup-append x a, one_of-append y a (x ∷ []), eql_iff x y, eql_iff y x)

is_nodup-see : (x : Bytes) (a : List Bytes) → is_nodup a ≡ true → is_nodup (see x a) ≡ true
is_nodup-see x a h =
    if_cases (λ b. is_nodup b ≡ true) (one_of x a) _ _ (λ _. h) λ e. is_nodup-append x a h e

is_nodup-dedup_into :
    (out names : List Bytes) → is_nodup out ≡ true → is_nodup (dedup_into out names) ≡ true
unfolding dedup_into
is_nodup-dedup_into out [] h = h
is_nodup-dedup_into out (s ∷ names) h = is_nodup-dedup_into (see s out) names (is_nodup-see s out h)

one_of-dedup_into :
    (s : Bytes) (out names : List Bytes)
    → one_of s (dedup_into out names) ≡ (one_of s out || one_of s names)
unfolding dedup_into one_of
one_of-dedup_into s out [] = ground arith
one_of-dedup_into s out (x ∷ names) =
    ground (arith, one_of-dedup_into s (see x out) names, one_of-see s x out)

-- What is kept stays in front.
primary-dedup_into : (y : Bytes) (a names : List Bytes) → primary (dedup_into (y ∷ a) names) ≡ y
unfolding dedup_into
primary-dedup_into y a [] = refl
primary-dedup_into y a (x ∷ names) =
    if_cases (λ b. primary (dedup_into b names) ≡ y) (one_of x (y ∷ a)) _ _
      (λ _. primary-dedup_into y a names) λ _. primary-dedup_into y (a ++ x ∷ []) names

one_of-Mem : (s : Bytes) (names : List Bytes) → one_of s names ≡ true → Memᴰ s names
unfolding one_of
one_of-Mem s [] h = cc
one_of-Mem s (x ∷ names) h = elim (Bool-cases (eql s x)) [
  | inl e ↦ Memᴰ.head ((eql_iff s x).0 e)
  | inr e ↦ Memᴰ.tail (one_of-Mem s names (ground arith))
]

Mem-one_of : (s : Bytes) (names : List Bytes) → Memᴰ s names → one_of s names ≡ true
unfolding one_of
Mem-one_of s [] m = elim m [ ]
Mem-one_of s (x ∷ names) (Memᴰ.head e) = let q = (eql_iff s x).1 e in ground arith
Mem-one_of s (x ∷ names) (Memᴰ.tail m) = let q = Mem-one_of s names m in ground arith

-- What a command name can stand for in a namespace: the name there, and, where it has no `::`, also what the imports
-- and the path of the namespace and the global namespace give.
abbrev pub IsName : Workspace → Bytes → Bytes → Bytes → Type 0
IsName ws name ns x = IsAt ns name x ⊎ ((is_qualified name ≡ false) × IsElsewhere ws ns name x)

-- The list has each of those once, and the name in the namespace first.
abbrev pub Covers : Workspace → Bytes → Bytes → List Bytes → Type 0
Covers ws name ns names =
    (is_nodup names ≡ true)
    × IsAt ns name (primary names)
    × ((x : Bytes) → Memᴰ x names ↔ IsName ws name ns x)

weaken :
    (ws : Workspace) (name ns x : Bytes)
    → is_qualified name ≡ false
    → IsAt ns name x ⊎ IsElsewhere ws ns name x
    → IsName ws name ns x
weaken ws name ns x h (inl e) = inl e
weaken ws name ns x h (inr e) = inr (h, e)

narrow :
    (ws : Workspace) (name ns x : Bytes)
    → IsName ws name ns x
    → IsAt ns name x ⊎ IsElsewhere ws ns name x
narrow ws name ns x (inl e) = inl e
narrow ws name ns x (inr (h, e)) = inr e

qualified-Covers :
    (ws : Workspace) (name ns : Bytes)
    → is_qualified name ≡ true
    → Covers ws name ns (qualify_name name ns ∷ [])
unfolding is_nodup one_of
qualified-Covers ws name ns h = (
  refl,
  qualify_name-IsAt ns name,
  λ x. (
    λ m. inl (subst (IsAt ns name) (sym (Memᴰ.eq_of_singleton m)) (qualify_name-IsAt ns name)),
    λ e. elim e [
      | inl k ↦ Memᴰ.head (IsAt-qualify_name ns name x k)
      | inr (k, _) ↦ let clash = sym h ∙ k in cc
    ],
  ),
)

bare-Covers :
    (ws : Workspace) (name ns : Bytes)
    → is_qualified name ≡ false
    → Covers ws name ns (dedup_into [] (bare_candidates ws name ns))
unfolding is_nodup one_of dedup_into
bare-Covers ws name ns h =
    let bare = bare_candidates ws name ns in
    (
      is_nodup-dedup_into [] bare refl,
      subst (IsAt ns name) (sym (primary-dedup_into (qualify_name name ns) [] (drop 1 bare)))
          (qualify_name-IsAt ns name),
      λ x. (
        λ m. weaken ws name ns x h (
            bare_candidates-named ws ns name x (
              one_of-Mem x bare
                (sym (one_of-dedup_into x [] bare) ∙ Mem-one_of x (dedup_into [] bare) m))),
        λ e. one_of-Mem x (dedup_into [] bare) (
            one_of-dedup_into x [] bare
            ∙ Mem-one_of x bare (IsNamed-bare_candidates ws ns name x h (narrow ws name ns x e))),
      ),
    )

-- No candidate of a command name comes twice, the first is the name in the current namespace, or the name itself where it
-- starts with `::`, and the candidates are exactly that one and, where the name has no `::`, the name below the
-- namespace of each import pattern with that last segment or `*`, below each entry of the namespace's path, and in the
-- global namespace.
pub command_candidates-Covers :
    (ws : Workspace) (name ns : Bytes) → Covers ws name ns (command_candidates ws name ns)
unfolding command_candidates
command_candidates-Covers ws name ns =
    if_cases (Covers ws name ns) (is_qualified name) _ _ (qualified-Covers ws name ns)
      (bare-Covers ws name ns)

abbrev sites_of : Workspace → Bytes → Option Bytes → List Location
sites_of ws file none = []
sites_of ws file (some name) = lookup_scoped ws name file

first_sites-first_defined :
    (ws : Workspace) (file : Bytes) (names : List Bytes)
    → first_sites ws file names ≡ sites_of ws file (first_defined ws file names)
unfolding first_sites first_defined
first_sites-first_defined ws file [] = refl
first_sites-first_defined ws file (y ∷ names) =
    elim (Bool-cases (has_sites (lookup_scoped ws y file))) [
      | inl q ↦ rw q refl
      | inr q ↦ rw q (first_sites-first_defined ws file names)
    ]

-- Where nothing is defined, the primary candidate is not.
sites_of-or_primary :
    (ws : Workspace) (file y : Bytes) (names : List Bytes)
    → sites_of ws file (first_defined ws file (y ∷ names))
      ≡ lookup_scoped ws (or_primary (y ∷ names) (first_defined ws file (y ∷ names))) file
unfolding first_defined
sites_of-or_primary ws file y names = elim (Bool-cases (has_sites (lookup_scoped ws y file))) [
  | inl q ↦ rw q refl
  | inr q ↦ rw q (by_rest (first_defined ws file names) q)
]
  where
    by_rest :
        (o : Option Bytes)
        → has_sites (lookup_scoped ws y file) ≡ false
        → sites_of ws file o ≡ lookup_scoped ws (or_primary (y ∷ names) o) file
    by_rest none q = sym (has_sites-nil (lookup_scoped ws y file) q)
    by_rest (some x) q = refl

first_sites-ref_fq :
    (ws : Workspace) (r : ContextRef) (file : Bytes)
    → candidates ws r ≢ []
    → first_sites ws file (candidates ws r) ≡ lookup_scoped ws (ref_fq ws r file) file
unfolding ref_fq
first_sites-ref_fq ws r file h = by_list (candidates ws r) h
  where
    by_list :
        (names : List Bytes)
        → names ≢ []
        → first_sites ws file names
          ≡ lookup_scoped ws (or_primary names (first_defined ws file names)) file
    by_list [] h = absurd (h refl)
    by_list (y ∷ names) h =
        first_sites-first_defined ws file (y ∷ names) ∙ sites_of-or_primary ws file y names

-- For a reference that has a candidate, `Definition` takes the methods of its own class, where it is a command in a method
-- and there are any; and else what `References` takes the reference for: the sites of the name that `refFQ` gives.
pub ref_sites-ref_fq :
    (ws : Workspace) (r : ContextRef) (file : Bytes)
    → candidates ws r ≢ []
    → ref_sites ws file (some r) ≡ (
        if (is_command r.ref.kind && in_method r)
          && has_sites (method_in_class ws r.context.class r.ref.name)
        then method_in_class ws r.context.class r.ref.name
        else lookup_scoped ws (ref_fq ws r file) file)
unfolding ref_sites
ref_sites-ref_fq ws r file h = by_test (is_command r.ref.kind && in_method r)
  where
    found : List Location
    found = method_in_class ws r.context.class r.ref.name

    by_test :
        (b : Bool)
        → (if has_sites (if b then found else [])
            then (if b then found else [])
            else first_sites ws file (candidates ws r))
          ≡ (if b && has_sites found then found else lookup_scoped ws (ref_fq ws r file) file)
    by_test true = ap (λ x. if has_sites found then found else x) (first_sites-ref_fq ws r file h)
    by_test false = first_sites-ref_fq ws r file h
