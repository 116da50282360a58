-- ===== src/Tests/Serving.antt =====
-- The server's handlers at small files.
use mathlib.Core.Option
use mathlib.Core.List.{Memᴰ}
use tcl_lsp_nvim.Base.{
  Option, arith, ◌-◌, ◌==◌, map, ℕ, ◌+◌, true, List, [], ◌∷◌, ◌++◌, ◌≡◌, refl, some, none,
  if◌then◌else◌, Bytes, codes, drop, has_prefix,
}
use tcl_lsp_nvim.Assoc.{Assoc, lookup, find_or}
use tcl_lsp_nvim.Defs.{def_proc, def_method, Definition}
use tcl_lsp_nvim.Index.{Location, ClassInfo, Index, new_index, lookup_name}
use tcl_lsp_nvim.Index.Entries.{SymbolEntry, named_entry, all_symbols}
use tcl_lsp_nvim.Index.Entries.Held.{ShowsHeld, all_symbols-ShowsHeld}
use tcl_lsp_nvim.Index.Entries.Listed.{IsKnown, named, Shows, all_symbols-Shows}
use tcl_lsp_nvim.Lsp.Symbols.{SymbolInformation, workspace_symbols}
use tcl_lsp_nvim.Resolve.Members.{search, find_member, methods_called}
use tcl_lsp_nvim.Lsp.Frames.{
  Number, natural, Codec, received, failed, missing_length, read_message, write_message,
}
use tcl_lsp_nvim.Lsp.Frames.RoundTrip.{read_message-write_message}
use tcl_lsp_nvim.Lsp.{Host, uri_to_path}
use tcl_lsp_nvim.Lsp.Hierarchy.{Anchor, enclosing_from, enclosing_def}
use tcl_lsp_nvim.Lsp.Hierarchy.Overrides.{resolves, method_resolves_to}
use tcl_lsp_nvim.Lsp.Hierarchy.Extents.{IsInnermost, enclosing_def-IsInnermost}
use tcl_lsp_nvim.Index.Directory.{Entry, regular}
use tcl_lsp_nvim.Lsp.Documents.{
  initialize, new_server, Message, did_open, did_change, did_change_watched, deleted, serve,
}
use tcl_lsp_nvim.Lsp.Documents.Current.{IsLive}
use tcl_lsp_nvim.Lsp.Documents.Live.{gone_since, serve-IsLive}

abbrev proc_at : ℕ → ℕ → Definition
proc_at start end = record {
  kind = def_proc;
  name = codes "p";
  namespace = [];
  name_start = start + 5;
  name_end = start + 6;
  full_start = start;
  full_end = end;
  scope = 0;
  origin = [];
  class = [];
}

-- A proc inside another.
enclosing_def-inner : enclosing_def (proc_at 0 90 ∷ proc_at 20 50 ∷ []) 30 ≡ some (proc_at 20 50)
unfolding enclosing_from
enclosing_def-inner = refl

enclosing_def-IsInnermost_example :
    IsInnermost 30
      (proc_at 0 90 ∷ proc_at 20 50 ∷ [])
      (enclosing_def (proc_at 0 90 ∷ proc_at 20 50 ∷ []) 30)
enclosing_def-IsInnermost_example = enclosing_def-IsInnermost (proc_at 0 90 ∷ proc_at 20 50 ∷ []) 30

abbrev method_at : Bytes → Location
method_at file = record {
  file = file;
  name = codes "run";
  kind = def_method;
  name_start = 30;
  name_end = 33;
}

abbrev class_of_file : Bytes → ClassInfo
class_of_file file = record {
  def_sites = [];
  methods = (codes "run", method_at file ∷ []) ∷ [];
  ivars = [];
  inherit = [];
}

-- A class with two bases that both have the method.
abbrev two_bases : Assoc ClassInfo
two_bases =
    (
      codes "::C",
      record { def_sites = []; methods = []; ivars = []; inherit = codes "::A" ∷ codes "::B" ∷ [] },
    )
    ∷ (codes "::A", class_of_file (codes "a.tcl"))
    ∷ (codes "::B", class_of_file (codes "b.tcl"))
    ∷ []

abbrev second_run : Anchor
second_run = record {
  file = codes "b.tcl";
  name = codes "run";
  kind = def_method;
  name_start = 30;
  name_end = 33;
}

-- The definition of the method called in the class is the first base's ...
find_member-two_bases :
    find_member two_bases (methods_called (codes "run")) (codes "::C")
    ≡ method_at (codes "a.tcl") ∷ []
unfolding search find_or
find_member-two_bases = refl

-- ... and the call hierarchy counts its calls there as calls of the second base's, too.
method_resolves_to-two_bases :
    method_resolves_to two_bases (codes "run") second_run (codes "::C") ≡ true
unfolding resolves
method_resolves_to-two_bases = refl

abbrev local_host : Host
local_host = record {
  decode = λ bytes. (1, 1);
  sort = λ names. names;
  itoa = λ n. [];
  parse_url =
      λ uri. if has_prefix uri (codes "file://") then some (codes "file", drop 7 uri) else none;
  print_url = λ scheme path. scheme ++ codes "://" ++ path;
  base_name = λ path. path;
}

abbrev document : Bytes
document = codes "file:///a.tcl"

-- A document is opened, its file is deleted, and the document is changed, to a text whose analysis panics.
abbrev session : List Message
session =
    did_open document (codes "proc p {} {}")
    ∷ did_change_watched ((document, deleted) ∷ [])
    ∷ did_change document (codes "proc q {} {lassign}" ∷ [])
    ∷ []

-- One file below every root.
abbrev one_below : Bytes → List Entry
one_below root = regular (root ++ codes "b.tcl") (some (codes "proc b {} {}")) ∷ []

serve-IsLive_example :
    IsLive local_host
      (gone_since local_host session [])
      (serve local_host (initialize (codes "/") [] one_below ∷ session) new_server)
unfolding has_prefix uri_to_path
serve-IsLive_example =
    serve-IsLive local_host (codes "/") [] one_below session (refl, (tt, (refl, tt)))

serve-session :
    lookup
      (codes "/a.tcl")
      (serve local_host (initialize (codes "/") [] one_below ∷ session) new_server).ix.src
    ≡ some (codes "proc q {} {lassign}")
unfolding serve lookup has_prefix uri_to_path Option.bind
serve-session = refl

serve-indexed :
    lookup
      (codes "/b.tcl")
      (serve local_host (initialize (codes "/") [] one_below ∷ session) new_server).ix.src
    ≡ some (codes "proc b {} {}")
unfolding serve lookup has_prefix uri_to_path Option.bind
serve-indexed = refl

abbrev helper : Location
helper = record {
  file = codes "/a.tcl";
  name = codes "::app::helper";
  kind = def_proc;
  name_start = 5;
  name_end = 18;
}

abbrev helper_index : Index
helper_index = record new_index { defs_by_name = (codes "::app::helper", helper ∷ []) ∷ [] }

helper-IsKnown : IsKnown helper_index helper def_proc none
unfolding lookup_name
helper-IsKnown = named (codes "::app::helper") helper (Memᴰ.head refl) refl

all_symbols-Shows_example :
    (e : SymbolEntry) × Memᴰ e (all_symbols (λ es. es) helper_index) × Shows helper def_proc none e
all_symbols-Shows_example =
    all_symbols-Shows (λ es. es) helper_index (λ e es m. m) helper def_proc none helper-IsKnown

helper_listed : Memᴰ (named_entry helper) (all_symbols (λ es. es) helper_index)
unfolding all_symbols
helper_listed = Memᴰ.head refl

all_symbols-ShowsHeld_example : ShowsHeld helper_index (named_entry helper)
all_symbols-ShowsHeld_example =
    all_symbols-ShowsHeld (λ es. es) helper_index (λ e es m. m) (named_entry helper) helper_listed

workspace_symbols-helper :
    map {B = Bytes × Bytes}
      (λ (s : SymbolInformation). (s.name, s.container_name))
      (workspace_symbols local_host
        (λ name. name)
        (λ es. es)
        (record { docs = []; ix = helper_index })
        (codes "elp"))
    ≡ (codes "helper", codes "::app") ∷ []
unfolding workspace_symbols lookup_name
workspace_symbols-helper = refl

workspace_symbols-other :
    workspace_symbols local_host
      (λ name. name)
      (λ es. es)
      (record { docs = []; ix = helper_index })
      (codes "app")
    ≡ []
unfolding workspace_symbols
workspace_symbols-other = refl

abbrev one_digit : Bytes → Option Number
one_digit (c ∷ []) = some (natural (c - 48))
one_digit _ = none

abbrev drop_space : Bytes → Bytes
drop_space (c ∷ s) = if c == 32 then s else c ∷ s
drop_space [] = []

-- Messages are their bodies; a number below ten is one digit.
abbrev plain : Codec Bytes
plain = record {
  marshal = λ m. some m;
  unmarshal = λ body. some body;
  itoa = λ n. (48 + n) ∷ [];
  atoi = one_digit;
  trim_space = drop_space;
}

read_message-write_message_example :
    Option.map (λ w. read_message plain (w ++ codes "next")) (write_message plain (codes "ab"))
    ≡ some (received (codes "ab") (codes "next"))
read_message-write_message_example =
    read_message-write_message plain (codes "ab") (codes "ab") (codes "next") refl refl
      (omega arith) (omega arith) ((refl, tt), refl, refl)

read_message-missing :
    read_message plain (codes "Accept: x" ++ 13 ∷ 10 ∷ 13 ∷ 10 ∷ []) ≡ failed missing_length
unfolding read_message Option.bind
read_message-missing = refl
