-- ===== src/Decls.antt =====
-- server/internal/tcl/nsdecl.go and classdecl.go: what a command declares of its namespace or class.
use tcl_lsp_nvim.Base.{
  Bool, false, ◌&&◌, ◌||◌, not, List, [], ◌∷◌, ◌++◌, map, Option, none, some, ◌==◌, leb,
  if◌then◌else◌, Bytes, codes, length, drop, flatten, get_elem?, eql, one_of,
}
use tcl_lsp_nvim.Assoc.{Assoc, alter}
use tcl_lsp_nvim.Parser.{Word, Command, parse}
use tcl_lsp_nvim.Syntax.{
  is_bare, is_cmd, is_wrapped, interior, first_byte, qualify_name, qualify_namespace, text_at,
}

pub record NamespaceInfo : Type 0 where
  pub name : Bytes
  pub path : List Bytes
  pub exports : List Bytes
  pub imports : List Bytes

unfoldable pub unbrace : Bytes → Bytes
unbrace s = if is_wrapped s then interior s else s

-- Words that are neither empty nor flags, with a layer of braces taken off.
unfoldable pub patterns : List Word → List Bytes
unfolding unbrace
patterns [] = []
patterns (w ∷ ws) =
    if length w.text == 0 || first_byte w.text b'-'
    then patterns ws
    else unbrace w.text ∷ patterns ws

unfoldable pub path_names : Bytes → List Word → List Bytes
unfolding unbrace qualify_name
path_names ns [] = []
path_names ns (w ∷ ws) =
    let rest = path_names ns ws in
    if length (unbrace w.text) == 0 then rest else qualify_namespace (unbrace w.text) ns ∷ rest

unfoldable pub parse_path_list : Bytes → Bytes → List Bytes
unfolding path_names parse unbrace
parse_path_list text ns = path_names ns (flatten (parse (unbrace text)))

abbrev pub Namespaces : Type 0
Namespaces = Assoc NamespaceInfo

-- What `ensureNS` creates.
abbrev pub fresh_ns : Bytes → NamespaceInfo
fresh_ns ns = record { name = ns; path = []; exports = []; imports = [] }

-- The switch of `recordNSDecl` on the subcommand: the change to the namespace's entry, if any.
unfoldable pub ns_change : Bytes → Command → Bytes → Option (NamespaceInfo → NamespaceInfo)
unfolding eql patterns parse_path_list qualify_name
ns_change sub w ns =
    if eql sub (codes "export")
    then some (λ info. record info { exports = info.exports ++ patterns (drop 2 w) })
    else if eql sub (codes "import")
    then some (λ info. record info {
      imports = info.imports ++ map (λ p. qualify_namespace p ns) (patterns (drop 2 w));
    })
    else if eql sub (codes "path")
    then some (λ info. record info { path = parse_path_list (text_at w 2) ns })
    else none

abbrev pub declares : Command → Bool
declares w =
    is_cmd w (codes "namespace")
    && leb 3 (length w)
    && elim (get_elem? w 1) [ none ↦ false | some x ↦ is_bare x ]

unfoldable pub record_ns_decl : Command → Bytes → Namespaces → Namespaces
unfolding is_cmd ns_change alter
record_ns_decl w ns m =
    if declares w
    then elim (ns_change (text_at w 1) w ns) [ none ↦ m | some f ↦ alter (fresh_ns ns) ns f m ]
    else m

abbrev pub Classes : Type 0
Classes = Assoc (List Bytes)

-- A base that the class has already is not added again.
unfoldable pub add_base : List Bytes → Bytes → List Bytes
unfolding one_of
add_base bases b = if one_of b bases then bases else bases ++ b ∷ []

-- The loop of `recordInherit` over `w[1:]`.
unfoldable pub add_bases : Bytes → List Word → List Bytes → List Bytes
unfolding add_base unbrace qualify_name
add_bases ns [] bases = bases
add_bases ns (w ∷ ws) bases =
    let name = unbrace w.text in
    add_bases ns ws (if length name == 0 then bases else add_base bases (qualify_name name ns))

-- Whether some base has a name: otherwise the map is not written.
unfoldable pub names_base : List Word → Bool
unfolding unbrace
names_base [] = false
names_base (w ∷ ws) = not (length (unbrace w.text) == 0) || names_base ws

unfoldable pub record_inherit : Command → Bytes → Bytes → Classes → Classes
unfolding is_cmd add_bases names_base alter
record_inherit w ns class m =
    if is_cmd w (codes "inherit") && leb 2 (length w) && names_base (drop 1 w)
    then alter [] class (add_bases ns (drop 1 w)) m
    else m
