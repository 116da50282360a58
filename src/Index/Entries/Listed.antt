-- ===== src/Index/Entries/Listed.antt =====
-- server/internal/index/index.go: the entries of `AllSymbols`.
use mathlib.Core.List.{Memᴰ}
use mathlib.Core.List.Memᴰ
use tcl_lsp_nvim.Base.{
  ℕ, Option, none, refl, false, ◌⊎◌, ◌≢◌, ◌==◌, arith, codes, length, take, last_index_of, true,
  List, [], ◌∷◌, ◌≡◌, sym, ap, ◌∙◌, map, some, Bytes, eql, eql_iff, subst, flatten, if_cases, if_on,
  if_off, Bool-cases, inl, inr,
}
use tcl_lsp_nvim.Assoc.{Assoc, lookup, find_or}
use tcl_lsp_nvim.Defs.{
  DefKind, def_proc, def_namespace_var, def_local, def_global_link, def_class, def_method, def_ivar,
}
use tcl_lsp_nvim.Syntax.{global_ns}
use tcl_lsp_nvim.Syntax.Names.{IsSplit, last_index_of-IsSplit}
use tcl_lsp_nvim.Index.Lookups.{is_visible}
use tcl_lsp_nvim.Index.{Location, ClassInfo, Index, lookup_name}
use tcl_lsp_nvim.Index.Entries.{
  SymbolEntry, entry_of, named_entry, is_named, named_entries, class_entries, all_symbols,
  member_entries, split_behind, split_fq_name, container_of,
}

-- A location that the table has: of a proc, a namespace variable or a class, by its name; and of a method or an
-- instance variable, with its class.
pub data IsKnown (ix : Index) : Location → DefKind → Option Bytes → Type 0 where
  named :
      (name : Bytes) (l : Location)
      → Memᴰ l (lookup_name name ix)
      → is_visible l.kind ≡ true
      → IsKnown ix l l.kind none
  method :
      (class name : Bytes) (ci : ClassInfo) (l : Location)
      → lookup class ix.classes ≡ some ci
      → Memᴰ l (find_or [] name ci.methods)
      → IsKnown ix l def_method (some class)
  ivar :
      (class name : Bytes) (ci : ClassInfo) (l : Location)
      → lookup class ix.classes ≡ some ci
      → Memᴰ l (find_or [] name ci.ivars)
      → IsKnown ix l def_ivar (some class)

-- The name that is shown and its container: a member's name is shown as it is, in its class; another name is split at
-- its last `::`, and the container is `::` where nothing stands in front of that.
abbrev pub IsTitled : Option Bytes → Bytes → Bytes → Bytes → Type 0
IsTitled (some class) full name container = (name ≡ full) × (container ≡ class)
IsTitled none full name container =
    ((last_index_of full (codes "::") ≡ none) × (name ≡ full) × (container ≡ codes "::"))
    ⊎ ((front : Bytes) × IsSplit full front name
        × (((front ≡ []) × (container ≡ codes "::")) ⊎ ((front ≢ []) × (container ≡ front))))

-- An entry that shows a location: its file and range, the kind, and the name in its container.
pub record Shows (l : Location) (kind : DefKind) (class : Option Bytes) (e : SymbolEntry)
    : Type 0 where
  pub file : e.file ≡ l.file
  pub kinded : e.kind ≡ kind
  pub starts : e.name_start ≡ l.name_start
  pub ends : e.name_end ≡ l.name_end
  pub titled : IsTitled class l.name e.name e.container

Mem-flatten-map :
    {A B : Type 0} (f : A → List B) (x : B) (a : A) (xs : List A)
    → Memᴰ a xs
    → Memᴰ x (f a)
    → Memᴰ x (flatten (map f xs))
Mem-flatten-map f x a [] m h = elim m [ ]
Mem-flatten-map f x a (b ∷ xs) (Memᴰ.head p) h = Memᴰ.append_left _ (subst (λ c. Memᴰ x (f c)) p h)
Mem-flatten-map f x a (b ∷ xs) (Memᴰ.tail m) h =
    Memᴰ.append_right (f b) (Mem-flatten-map f x a xs m h)

Mem-map : {A B : Type 0} (f : A → B) (a : A) (xs : List A) → Memᴰ a xs → Memᴰ (f a) (map f xs)
Mem-map f a [] m = elim m [ ]
Mem-map f a (b ∷ xs) (Memᴰ.head p) = Memᴰ.head (ap f p)
Mem-map f a (b ∷ xs) (Memᴰ.tail m) = Memᴰ.tail (Mem-map f a xs m)

-- An entry of a table is one of its pairs.
Mem-lookup : {V : Type 0} (k : Bytes) (v : V) (m : Assoc V) → lookup k m ≡ some v → Memᴰ (k, v) m
unfolding lookup
Mem-lookup k v [] h = cc
Mem-lookup k v ((j, w) ∷ m) h = elim (Bool-cases (eql j k)) [
  | inl e ↦ let p = (eql_iff j k).0 e in let q = sym (if_on _ _ _ e) ∙ h in Memᴰ.head cc
  | inr e ↦ Memᴰ.tail (Mem-lookup k v m (sym (if_off _ _ _ e) ∙ h))
]

Mem-find_or :
    (k : Bytes) (l : Location) (m : Assoc (List Location))
    → Memᴰ l (find_or [] k m)
    → (locs : List Location) × Memᴰ (k, locs) m × Memᴰ l locs
unfolding find_or
Mem-find_or k l [] h = elim h [ ]
Mem-find_or k l ((j, locs) ∷ m) h = elim (Bool-cases (eql j k)) [
  | inl e ↦
      let p = (eql_iff j k).0 e in
      (locs, Memᴰ.head (ap (λ i. (i, locs)) (sym p)), subst (Memᴰ l) (if_on _ _ _ e) h)
  | inr e ↦
      let (found, pair, in_it) = Mem-find_or k l m (subst (Memᴰ l) (if_off _ _ _ e) h) in
      (found, Memᴰ.tail pair, in_it)
]

is_visible-named : (k : DefKind) → is_visible k ≡ true → is_named k ≡ true
is_visible-named def_proc h = refl
is_visible-named def_namespace_var h = refl
is_visible-named def_class h = refl
is_visible-named def_local h = cc
is_visible-named def_global_link h = cc
is_visible-named def_method h = cc
is_visible-named def_ivar h = cc

container_of-IsTitled :
    (front : Bytes)
    → ((front ≡ []) × (container_of front ≡ codes "::"))
      ⊎ ((front ≢ []) × (container_of front ≡ front))
container_of-IsTitled [] = inl (refl, refl)
container_of-IsTitled (c ∷ front) =
    let filled : (length (c ∷ front) == 0) ≡ false = ground arith in
    inr ((λ q. cc), if_off _ _ _ filled)

split_behind-IsTitled :
    (fq : Bytes) (o : Option ℕ)
    → last_index_of fq global_ns ≡ o
    → IsTitled none fq (split_behind fq o).0 (split_behind fq o).1
split_behind-IsTitled fq none e = inl (e, refl, refl)
split_behind-IsTitled fq (some i) e =
    inr (take i fq, last_index_of-IsSplit fq i e, container_of-IsTitled (take i fq))

pub named_entry-Shows : (l : Location) → Shows l l.kind none (named_entry l)
unfolding split_fq_name
named_entry-Shows l = record {
  file = refl;
  kinded = refl;
  starts = refl;
  ends = refl;
  titled = split_behind-IsTitled l.name (last_index_of l.name global_ns) refl;
}

pub entry_of-Shows :
    (kind : DefKind) (class : Bytes) (l : Location)
    → Shows l kind (some class) (entry_of l.name kind class l)
entry_of-Shows kind class l = record {
  file = refl;
  kinded = refl;
  starts = refl;
  ends = refl;
  titled = (refl, refl);
}

Mem-named_entries :
    (l : Location) (locs : List Location)
    → Memᴰ l locs
    → is_named l.kind ≡ true
    → Memᴰ (named_entry l) (named_entries locs)
unfolding named_entries
Mem-named_entries l [] m h = elim m [ ]
Mem-named_entries l (k ∷ locs) (Memᴰ.head p) h =
    subst (Memᴰ (named_entry l)) (sym (if_on _ _ _ (ap (λ x. is_named x.kind) (sym p) ∙ h)))
      (Memᴰ.head (ap named_entry p))
Mem-named_entries l (k ∷ locs) (Memᴰ.tail m) h =
    let rest = Mem-named_entries l locs m h in
    if_cases (Memᴰ (named_entry l)) (is_named k.kind) _ _ (λ _. Memᴰ.tail rest) λ _. rest

module _ (sort : List SymbolEntry → List SymbolEntry) (ix : Index)
    (keeps : (e : SymbolEntry) (es : List SymbolEntry) → Memᴰ e es → Memᴰ e (sort es)) where
  -- The entries of a table of members.
  members-Mem :
      (kind : DefKind) (class name : Bytes) (l : Location) (m : Assoc (List Location))
      → Memᴰ l (find_or [] name m)
      → Memᴰ (entry_of l.name kind class l) (member_entries kind class m)
  members-Mem kind class name l m h =
      let (locs, pair, in_it) = Mem-find_or name l m h in
      Mem-flatten-map (λ e. map (λ l. entry_of l.name kind class l) e.1) _ (name, locs) m pair
        (Mem-map (λ l. entry_of l.name kind class l) l locs in_it)

  class-Mem :
      (class : Bytes) (ci : ClassInfo) (e : SymbolEntry)
      → lookup class ix.classes ≡ some ci
      → Memᴰ e (class_entries (class, ci))
      → Memᴰ e (all_symbols sort ix)
  unfolding all_symbols
  class-Mem class ci e h m = keeps _ _ (
      Memᴰ.append_right _ (
        Mem-flatten-map class_entries e (class, ci) ix.classes (Mem-lookup class ci ix.classes h)
          m))

  -- For every sort that keeps the entries: the symbols have an entry for each location that the lookup of a name gives,
  -- where its kind is a proc, a namespace variable or a class, and for each method and each instance variable that the
  -- table has for a class. The entry has the location's file and range and that kind. A member has its own name, and
  -- its class as container; every other name is what stands behind its last `::`, in what stands in front, or in `::`.
  pub all_symbols-Shows :
      (l : Location) (kind : DefKind) (class : Option Bytes)
      → IsKnown ix l kind class
      → (e : SymbolEntry) × Memᴰ e (all_symbols sort ix) × Shows l kind class e
  unfolding all_symbols lookup_name
  all_symbols-Shows _ _ _ (named name l m h) =
      let (locs, pair, in_it) = Mem-find_or name l ix.defs_by_name m in
      (
        named_entry l,
        keeps _ _ (
            Memᴰ.append_left _ (
              Mem-flatten-map (λ e. named_entries e.1) _ (name, locs) ix.defs_by_name pair
                (Mem-named_entries l locs in_it (is_visible-named l.kind h)))),
        named_entry-Shows l,
      )
  all_symbols-Shows _ _ _ (method class name ci l h m) = (
    entry_of l.name def_method class l,
    class-Mem class ci _ h (Memᴰ.append_left _ (members-Mem def_method class name l ci.methods m)),
    entry_of-Shows def_method class l,
  )
  all_symbols-Shows _ _ _ (ivar class name ci l h m) = (
    entry_of l.name def_ivar class l,
    class-Mem class ci _ h (
        Memᴰ.append_right (member_entries def_method class ci.methods)
          (members-Mem def_ivar class name l ci.ivars m)),
    entry_of-Shows def_ivar class l,
  )
