-- ===== src/Index.antt =====
-- server/internal/index/index.go: the workspace's symbol table. Each Go map is an association list;
-- the methods take the table and return it. A slice that reuses its backing array is the new list.
-- Go walks a map in any order: the loops here take the list's. `none` is the panic of `emitDefs`.
pub mod Tracked
pub mod Lookups
pub mod Merging
pub mod Memo
pub mod Entries
pub mod Directory
use mathlib.Core.Option
use tcl_lsp_nvim.Base.{
  ℕ, ◌+◌, Bool, true, false, ◌&&◌, ◌||◌, not, List, [], ◌∷◌, ◌++◌, map, Option, none, some, ◌==◌,
  if◌then◌else◌, Bytes, length, drop, take, eql, one_of, codes, last_index_of, see,
}
use tcl_lsp_nvim.Assoc.{Assoc, lookup, find_or, alter, delete}
use tcl_lsp_nvim.Syntax.{global_ns}
use tcl_lsp_nvim.Defs.{
  DefKind, def_proc, def_namespace_var, def_class, def_method, def_ivar, Definition,
}
use tcl_lsp_nvim.Decls.{Namespaces, Classes}
use tcl_lsp_nvim.Files.{ContextRef, FileIndex}
use tcl_lsp_nvim.Source.{index_unit}

pub record Location : Type 0 where
  pub file : Bytes
  pub name : Bytes
  pub kind : DefKind
  pub name_start : ℕ
  pub name_end : ℕ

pub record ClassInfo : Type 0 where
  pub def_sites : List Location
  pub methods : Assoc (List Location)
  pub ivars : Assoc (List Location)
  pub inherit : List Bytes

pub record NsMerged : Type 0 where
  pub path : List Bytes
  pub imports : List Bytes

pub record Index : Type 0 where
  pub defs_by_name : Assoc (List Location)
  pub file_defs : Assoc (List Bytes)
  pub src : Assoc Bytes
  pub file_ns : Assoc Namespaces
  pub file_refs : Assoc (List ContextRef)
  pub ns_cache : Assoc NsMerged
  pub classes : Assoc ClassInfo
  pub file_class_keys : Assoc (List Bytes)
  pub file_class_inherit : Assoc (Assoc (List Bytes))

-- `New()`
abbrev pub new_index : Index
new_index = record {
  defs_by_name = [];
  file_defs = [];
  src = [];
  file_ns = [];
  file_refs = [];
  ns_cache = [];
  classes = [];
  file_class_keys = [];
  file_class_inherit = [];
}

-- `m[k] = v`
abbrev pub put {ℓ} : {V : Type ℓ} → Bytes → V → Assoc V → Assoc V
put k v m = alter v k (λ _. v) m

unfoldable pub filter_locs : List Location → Bytes → List Location
unfolding eql
filter_locs [] file = []
filter_locs (l ∷ locs) file =
    let rest = filter_locs locs file in if eql l.file file then rest else l ∷ rest

-- `delete(m, name)` where nothing is left, else `m[name] = kept`.
abbrev pub put_locs : Bytes → List Location → Assoc (List Location) → Assoc (List Location)
put_locs name [] m = delete name m
put_locs name (l ∷ kept) m = alter [] name (λ _. l ∷ kept) m

-- The first loop of `RemoveFile`.
unfoldable pub remove_names : Bytes → List Bytes → Assoc (List Location) → Assoc (List Location)
unfolding find_or filter_locs alter delete
remove_names path [] m = m
remove_names path (n ∷ ns) m =
    remove_names path ns (put_locs n (filter_locs (find_or [] n m) path) m)

-- The loops over `ci.Methods` and `ci.Ivars`.
unfoldable pub remove_members : Bytes → Assoc (List Location) → Assoc (List Location)
unfolding filter_locs
remove_members path [] = []
remove_members path ((n, locs) ∷ m) =
    let kept = filter_locs locs path in
    let rest = remove_members path m in if length kept == 0 then rest else (n, kept) ∷ rest

unfoldable pub remove_edges : List Bytes → List Bytes → List Bytes
unfolding one_of
remove_edges edges [] = []
remove_edges edges (b ∷ bases) =
    let rest = remove_edges edges bases in if one_of b edges then rest else b ∷ rest

abbrev pub cleared : Bytes → List Bytes → ClassInfo → ClassInfo
cleared path edges ci = record {
  def_sites = filter_locs ci.def_sites path;
  methods = remove_members path ci.methods;
  ivars = remove_members path ci.ivars;
  inherit = remove_edges edges ci.inherit;
}

abbrev pub is_nothing : ClassInfo → Bool
is_nothing ci =
    length ci.def_sites == 0
    && length ci.methods == 0
    && length ci.ivars == 0
    && length ci.inherit == 0

-- The loop's turn at a class: `edges` are the inherit edges that the file contributed to it.
abbrev pub remove_class :
    Bytes → Bytes → List Bytes → Option ClassInfo → Assoc ClassInfo → Assoc ClassInfo
remove_class path fq edges none m = m
remove_class path fq edges (some ci) m =
    if is_nothing (cleared path edges ci) then delete fq m else put fq (cleared path edges ci) m

unfoldable pub remove_classes :
    Bytes → Assoc (List Bytes) → List Bytes → Assoc ClassInfo → Assoc ClassInfo
unfolding lookup find_or alter delete filter_locs remove_members remove_edges
remove_classes path contribs [] m = m
remove_classes path contribs (fq ∷ fqs) m =
    remove_classes path contribs fqs (remove_class path fq (find_or [] fq contribs) (lookup fq m) m)

unfoldable pub remove_file : Bytes → Index → Index
unfolding remove_names remove_classes find_or delete
remove_file path ix = record {
  defs_by_name = remove_names path (find_or [] path ix.file_defs) ix.defs_by_name;
  file_defs = delete path ix.file_defs;
  src = delete path ix.src;
  file_ns = delete path ix.file_ns;
  file_refs = delete path ix.file_refs;
  ns_cache = [];
  classes =
      remove_classes path (find_or [] path ix.file_class_inherit)
        (find_or [] path ix.file_class_keys) ix.classes;
  file_class_keys = delete path ix.file_class_keys;
  file_class_inherit = delete path ix.file_class_inherit;
}

-- What `ensureClass` creates.
abbrev pub fresh_class : ClassInfo
fresh_class = record { def_sites = []; methods = []; ivars = []; inherit = [] }

abbrev pub location_of : Bytes → Definition → Location
location_of path d = record {
  file = path;
  name = d.name;
  kind = d.kind;
  name_start = d.name_start;
  name_end = d.name_end;
}

abbrev pub note_class : Bytes → Bytes → (ClassInfo → ClassInfo) → Index → Index
note_class path fq f ix = record ix {
  classes = alter fresh_class fq f ix.classes;
  file_class_keys = alter [] path (see fq) ix.file_class_keys;
}

abbrev pub note_name : Bytes → Definition → Index → Index
note_name path d ix = record ix {
  defs_by_name = alter [] d.name (λ locs. locs ++ location_of path d ∷ []) ix.defs_by_name;
  file_defs = alter [] path (λ names. names ++ d.name ∷ []) ix.file_defs;
}

abbrev pub with_member : Bytes → Definition → Assoc (List Location) → Assoc (List Location)
with_member path d = alter [] d.name (λ locs. locs ++ location_of path d ∷ [])

-- The switch on the definition's kind.
unfoldable pub index_kind : DefKind → Bytes → Definition → Index → Index
unfolding alter one_of
index_kind def_proc path d ix = note_name path d ix
index_kind def_namespace_var path d ix = note_name path d ix
index_kind def_class path d ix =
    note_class path d.name (λ ci. record ci { def_sites = ci.def_sites ++ location_of path d ∷ [] })
      (note_name path d ix)
index_kind def_method path d ix =
    if length d.class == 0
    then ix
    else note_class path d.class (λ ci. record ci { methods = with_member path d ci.methods }) ix
index_kind def_ivar path d ix =
    if length d.class == 0
    then ix
    else note_class path d.class (λ ci. record ci { ivars = with_member path d ci.ivars }) ix
index_kind _ path d ix = ix

unfoldable pub index_defs : Bytes → List Definition → Index → Index
unfolding index_kind
index_defs path [] ix = ix
index_defs path (d ∷ ds) ix = index_defs path ds (index_kind d.kind path d ix)

-- The bases that the class does not have yet, each once: `newEdges`.
unfoldable pub new_edges : List Bytes → List Bytes → List Bytes
unfolding one_of
new_edges inherit [] = []
new_edges inherit (b ∷ bases) =
    let rest = new_edges (see b inherit) bases in if one_of b inherit then rest else b ∷ rest

abbrev pub edges_of : Bytes → Index → List Bytes
edges_of fq ix = (find_or fresh_class fq ix.classes).inherit

-- `ix.fileClassInherit[path][fq]` grows where there are new edges.
abbrev pub note_edges : Bytes → List Bytes → Assoc (List Bytes) → Assoc (List Bytes)
note_edges fq [] m = m
note_edges fq (e ∷ edges) m = alter [] fq (λ es. es ++ (e ∷ edges)) m

abbrev pub index_class : Bytes → Bytes → List Bytes → Index → Index
index_class path fq bases ix =
    let edges = new_edges (edges_of fq ix) bases in
    record (note_class path fq (λ ci. record ci { inherit = ci.inherit ++ edges }) ix) {
      file_class_inherit = alter [] path (note_edges fq edges) ix.file_class_inherit;
    }

unfoldable pub index_classes : Bytes → Classes → Index → Index
unfolding find_or alter new_edges one_of
index_classes path [] ix = ix
index_classes path ((fq, bases) ∷ m) ix = index_classes path m (index_class path fq bases ix)

abbrev pub put_refs : Bytes → List ContextRef → Assoc (List ContextRef) → Assoc (List ContextRef)
put_refs path rs m = if length rs == 0 then m else put path rs m

-- `IndexFile` behind `RemoveFile` and the analysis.
abbrev pub add_unit : Bytes → Bytes → FileIndex → Index → Index
add_unit path content unit ix = index_classes path unit.classes (
    index_defs path unit.defs (record ix {
      src = put path content ix.src;
      file_ns = put path unit.namespaces ix.file_ns;
      file_refs = put_refs path unit.refs ix.file_refs;
    }))

unfoldable pub index_file : Bytes → Bytes → Index → Option Index
unfolding remove_file index_unit index_classes index_defs alter
index_file path content ix =
    Option.map (λ unit. add_unit path content unit (remove_file path ix)) (index_unit path content)

-- `Lookup`
unfoldable pub lookup_name : Bytes → Index → List Location
unfolding find_or
lookup_name name ix = find_or [] name ix.defs_by_name
