-- ===== src/Resolve/Members.antt =====
-- server/internal/resolve/resolve.go: `methodInClass` and `ivarInClass`, which differ in the member map
-- they read. The search goes through the bases depth first and hands on the set of classes seen.
use tcl_lsp_nvim.Base.{
  ℕ, zero, suc, List, [], ◌∷◌, Option, none, some, if◌then◌else◌, Bytes, length, one_of,
}
use tcl_lsp_nvim.Assoc.{Assoc, lookup, find_or}
use tcl_lsp_nvim.Index.{Location, ClassInfo}
use tcl_lsp_nvim.Resolve.{Workspace, has_sites}

abbrev pub Seen : Type 0
Seen = List Bytes

abbrev pub Search : Type 0
Search = Bytes → Seen → List Location × Seen

module _ (classes : Assoc ClassInfo) (members : ClassInfo → List Location) where
  -- The loop over the bases: the first that has the member wins.
  unfoldable pub search_bases : Search → List Bytes → Seen → List Location × Seen
  search_bases rec [] seen = ([], seen)
  search_bases rec (b ∷ bases) seen =
      let found = rec b seen in
      let rest = search_bases rec bases found.1 in if has_sites found.0 then found else rest

  unfoldable pub search_class : Search → Option ClassInfo → Seen → List Location × Seen
  unfolding search_bases
  search_class rec none seen = ([], seen)
  search_class rec (some ci) seen =
      let rest = search_bases rec ci.inherit seen in
      if has_sites (members ci) then (members ci, seen) else rest

  -- On fuel: each class that is entered is new and, but for the last, in the table.
  unfoldable pub search : ℕ → Search
  unfolding search_class lookup one_of
  search zero c seen = ([], seen)
  search (suc fuel) c seen =
      let entered = search_class (search fuel) (lookup c classes) (c ∷ seen) in
      if one_of c seen then ([], seen) else entered

  abbrev pub find_member : Bytes → List Location
  find_member c = (search (suc (length classes)) c []).0

abbrev pub methods_called : Bytes → ClassInfo → List Location
methods_called name ci = find_or [] name ci.methods

abbrev pub ivars_called : Bytes → ClassInfo → List Location
ivars_called name ci = find_or [] name ci.ivars

unfoldable pub method_in_class : Workspace → Bytes → Bytes → List Location
unfolding search find_or
method_in_class ws class name = find_member ws.classes (methods_called name) class

unfoldable pub ivar_in_class : Workspace → Bytes → Bytes → List Location
unfolding search find_or
ivar_in_class ws class name = find_member ws.classes (ivars_called name) class
