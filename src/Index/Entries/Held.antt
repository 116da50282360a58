-- ===== src/Index/Entries/Held.antt =====
-- server/internal/index/index.go: where the entries of `AllSymbols` come from.
use mathlib.Core.List.{Memᴰ}
use mathlib.Core.List.Memᴰ
use tcl_lsp_nvim.Base.{
  refl, true, List, [], ◌∷◌, ◌≡◌, sym, map, some, none, Option, Bytes, subst, flatten, if_on,
  if_off, Bool-cases, inl, inr,
}
use tcl_lsp_nvim.Assoc.{Assoc}
use tcl_lsp_nvim.Defs.{
  DefKind, def_proc, def_namespace_var, def_local, def_global_link, def_class, def_method, def_ivar,
}
use tcl_lsp_nvim.Index.Lookups.{is_visible}
use tcl_lsp_nvim.Index.{Location, ClassInfo, Index}
use tcl_lsp_nvim.Index.Entries.{
  SymbolEntry, entry_of, named_entry, is_named, named_entries, class_entries, all_symbols,
  member_entries,
}
use tcl_lsp_nvim.Index.Entries.Listed.{Shows, named_entry-Shows, entry_of-Shows}

-- A location that stands in a table: in that of the names, where it is of a proc, a namespace variable or a class; or in
-- one of the tables of a class, with the class.
pub data IsHeld (ix : Index) : Location → DefKind → Option Bytes → Type 0 where
  of_name :
      (name : Bytes) (locs : List Location) (l : Location)
      → Memᴰ (name, locs) ix.defs_by_name
      → Memᴰ l locs
      → is_visible l.kind ≡ true
      → IsHeld ix l l.kind none
  of_methods :
      (class name : Bytes) (ci : ClassInfo) (locs : List Location) (l : Location)
      → Memᴰ (class, ci) ix.classes
      → Memᴰ (name, locs) ci.methods
      → Memᴰ l locs
      → IsHeld ix l def_method (some class)
  of_ivars :
      (class name : Bytes) (ci : ClassInfo) (locs : List Location) (l : Location)
      → Memᴰ (class, ci) ix.classes
      → Memᴰ (name, locs) ci.ivars
      → Memᴰ l locs
      → IsHeld ix l def_ivar (some class)

-- An entry that shows a location of a table.
abbrev pub ShowsHeld : Index → SymbolEntry → Type 0
ShowsHeld ix e =
    (l : Location) × (kind : DefKind) × (class : Option Bytes) × IsHeld ix l kind class
    × Shows l kind class e

Mem-flatten_map :
    {A B : Type 0} (f : A → List B) (x : B) (xs : List A)
    → Memᴰ x (flatten (map f xs))
    → (a : A) × Memᴰ a xs × Memᴰ x (f a)
Mem-flatten_map f x [] m = elim m [ ]
Mem-flatten_map f x (a ∷ xs) m = elim (Memᴰ.append_cases (f a) m) [
  | inl h ↦ (a, Memᴰ.head refl, h)
  | inr h ↦ let (b, among, found) = Mem-flatten_map f x xs h in (b, Memᴰ.tail among, found)
]

is_named-visible : (k : DefKind) → is_named k ≡ true → is_visible k ≡ true
is_named-visible def_proc h = refl
is_named-visible def_namespace_var h = refl
is_named-visible def_class h = refl
is_named-visible def_local h = cc
is_named-visible def_global_link h = cc
is_named-visible def_method h = cc
is_named-visible def_ivar h = cc

-- An entry of such a location in a list.
abbrev NamedIn : SymbolEntry → List Location → Type 0
NamedIn e locs = (l : Location) × Memᴰ l locs × (is_visible l.kind ≡ true) × (e ≡ named_entry l)

NamedIn-later :
    (e : SymbolEntry) (k : Location) (locs : List Location) → NamedIn e locs → NamedIn e (k ∷ locs)
NamedIn-later e k locs (l, among, v, q) = (l, Memᴰ.tail among, v, q)

named_entries-NamedIn :
    (e : SymbolEntry) (locs : List Location) → Memᴰ e (named_entries locs) → NamedIn e locs
unfolding named_entries
named_entries-NamedIn e [] m = elim m [ ]
named_entries-NamedIn e (k ∷ locs) m = elim (Bool-cases (is_named k.kind)) [
  | inl q ↦ elim (Memᴰ.append_cases (named_entry k ∷ []) (subst (Memᴰ e) (if_on _ _ _ q) m)) [
    | inl h ↦ (k, Memᴰ.head refl, is_named-visible k.kind q, Memᴰ.eq_of_singleton h)
    | inr h ↦ NamedIn-later e k locs (named_entries-NamedIn e locs h)
  ]
  | inr q ↦
      NamedIn-later e k locs (named_entries-NamedIn e locs (subst (Memᴰ e) (if_off _ _ _ q) m))
]

member_entries-Mem :
    (kind : DefKind) (class : Bytes) (e : SymbolEntry) (m : Assoc (List Location))
    → Memᴰ e (member_entries kind class m)
    → (name : Bytes) × (locs : List Location) × (l : Location) × Memᴰ (name, locs) m
      × Memᴰ l locs
      × (e ≡ entry_of l.name kind class l)
member_entries-Mem kind class e m h =
    let ((name, locs), pair, found) =
      Mem-flatten_map (λ p. map (λ l. entry_of l.name kind class l) p.1) e m h in
    let (l, among, q) = Memᴰ.of_map (λ l. entry_of l.name kind class l) locs found in
    (name, locs, l, pair, among, sym q)

module _ (sort : List SymbolEntry → List SymbolEntry) (ix : Index)
    (adds_none : (e : SymbolEntry) (es : List SymbolEntry) → Memᴰ e (sort es) → Memᴰ e es) where
  by_name :
      (e : SymbolEntry)
      → Memᴰ e (flatten (map (λ p. named_entries p.1) ix.defs_by_name))
      → ShowsHeld ix e
  by_name e m =
      let ((name, locs), pair, found) =
        Mem-flatten_map (λ p. named_entries p.1) e ix.defs_by_name m in
      let (l, among, v, q) = named_entries-NamedIn e locs found in
      (
        l,
        l.kind,
        none,
        of_name name locs l pair among v,
        subst (Shows l l.kind none) (sym q) (named_entry-Shows l),
      )

  by_class : (e : SymbolEntry) → Memᴰ e (flatten (map class_entries ix.classes)) → ShowsHeld ix e
  by_class e m =
      let ((class, ci), known, found) = Mem-flatten_map class_entries e ix.classes m in
      elim (Memᴰ.append_cases (member_entries def_method class ci.methods) found) [
        | inl h ↦
            let (name, locs, l, pair, among, q) =
              member_entries-Mem def_method class e ci.methods h in
            (
              l,
              def_method,
              some class,
              of_methods class name ci locs l known pair among,
              subst (Shows l def_method (some class)) (sym q) (entry_of-Shows def_method class l),
            )
        | inr h ↦
            let (name, locs, l, pair, among, q) = member_entries-Mem def_ivar class e ci.ivars h in
            (
              l,
              def_ivar,
              some class,
              of_ivars class name ci locs l known pair among,
              subst (Shows l def_ivar (some class)) (sym q) (entry_of-Shows def_ivar class l),
            )
      ]

  -- For every sort that adds no entry: each of the symbols shows a location that stands in a table, one of a proc, a
  -- namespace variable or a class in that of the names, or a method or an instance variable in those of its class. It
  -- has the location's file and range and that kind. A member has its own name, and its class as container; every other
  -- name is what stands behind its last `::`, in what stands in front, or in `::`.
  pub all_symbols-ShowsHeld : (e : SymbolEntry) → Memᴰ e (all_symbols sort ix) → ShowsHeld ix e
  unfolding all_symbols
  all_symbols-ShowsHeld e m =
      elim (Memᴰ.append_cases (flatten (map (λ p. named_entries p.1) ix.defs_by_name))
        (adds_none e _ m)) [ inl h ↦ by_name e h | inr h ↦ by_class e h ]
