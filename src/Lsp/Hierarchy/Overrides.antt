-- ===== src/Lsp/Hierarchy/Overrides.antt =====
-- server/internal/lsp/callhierarchy.go: `methodResolvesTo` and `methodCallSites`.
use tcl_lsp_nvim.Base.{
  ℕ, zero, suc, Bool, false, ◌&&◌, ◌||◌, not, List, [], ◌∷◌, ◌++◌, Option, none, some, ◌==◌,
  if◌then◌else◌, Bytes, length, eql, one_of,
}
use tcl_lsp_nvim.Assoc.{Assoc, lookup, find_or}
use tcl_lsp_nvim.Defs.{def_method}
use tcl_lsp_nvim.Files.{ContextRef}
use tcl_lsp_nvim.Index.{Location, ClassInfo}
use tcl_lsp_nvim.Resolve.{Workspace, has_sites, is_command}
use tcl_lsp_nvim.Resolve.Members.{Seen, methods_called}
use tcl_lsp_nvim.Lsp.Hierarchy.{Anchor}

unfoldable pub is_among : Anchor → List Location → Bool
unfolding eql
is_among a [] = false
is_among a (l ∷ locs) = eql l.file a.file && l.name_start == a.name_start || is_among a locs

abbrev pub Resolves : Type 0
Resolves = Bytes → Seen → Bool × Seen

module _ (classes : Assoc ClassInfo) (name : Bytes) (a : Anchor) where
  unfoldable pub resolves_bases : Resolves → List Bytes → Seen → Bool × Seen
  resolves_bases rec [] seen = (false, seen)
  resolves_bases rec (b ∷ bases) seen =
      let found = rec b seen in
      let rest = resolves_bases rec bases found.1 in if found.0 then found else rest

  unfoldable pub resolves_class : Resolves → Option ClassInfo → Seen → Bool × Seen
  unfolding resolves_bases is_among find_or
  resolves_class rec none seen = (false, seen)
  resolves_class rec (some ci) seen =
      let rest = resolves_bases rec ci.inherit seen in
      if has_sites (methods_called name ci)
      then (is_among a (methods_called name ci), seen)
      else rest

  -- On fuel, as `search` of Resolve/Members.
  unfoldable pub resolves : ℕ → Resolves
  unfolding resolves_class lookup one_of
  resolves zero c seen = (false, seen)
  resolves (suc fuel) c seen =
      let entered = resolves_class (resolves fuel) (lookup c classes) (c ∷ seen) in
      if one_of c seen then (false, seen) else entered

  abbrev pub method_resolves_to : Bytes → Bool
  method_resolves_to c = (resolves (suc (length classes)) c []).0

-- The function `scan` of `methodCallSites`.
abbrev pub is_call_of : Workspace → Anchor → ContextRef → Bool
is_call_of ws a r =
    is_command r.ref.kind
    && eql r.ref.name a.name
    && not (length r.context.class == 0)
    && method_resolves_to ws.classes a.name a r.context.class

unfoldable pub scan_calls : Workspace → Anchor → Bytes → List ContextRef → List Location
unfolding resolves eql
scan_calls ws a f [] = []
scan_calls ws a f (r ∷ rs) =
    let rest = scan_calls ws a f rs in
    if is_call_of ws a r
    then record {
      file = f;
      name = a.name;
      kind = def_method;
      name_start = r.ref.start;
      name_end = r.ref.end;
    }
      ∷ rest
    else rest

unfoldable pub scan_call_files : Workspace → Anchor → List Bytes → List Location
unfolding scan_calls eql
scan_call_files ws a [] = []
scan_call_files ws a (f ∷ fs) =
    let rest = scan_call_files ws a fs in
    if eql f a.file then rest else scan_calls ws a f (ws.refs_of f) ++ rest

-- Where `rs` are the references of the anchor's file.
unfoldable pub method_call_sites : Workspace → Anchor → List ContextRef → List Location
unfolding scan_calls scan_call_files
method_call_sites ws a rs = scan_calls ws a a.file rs ++ scan_call_files ws a ws.files
