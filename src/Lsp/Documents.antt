-- ===== src/Lsp/Documents.antt =====
-- server/internal/lsp/server.go: the open documents and the index, as the messages of the client change
-- them. A panic of the analyses ends the handler; `dispatch` recovers, and the state stays as it is then.
pub mod Stored
pub mod Gone
pub mod Current
pub mod Watched
pub mod Live
use mathlib.Core.Option
use tcl_lsp_nvim.Base.{
  ℕ, Bool, true, false, ◌||◌, ◌&&◌, not, ◌==◌, length, List, [], ◌∷◌, Option, none, some,
  if◌then◌else◌, Bytes, codes, ◌>>=◌,
}
use tcl_lsp_nvim.Assoc.{Assoc, lookup, alter, delete}
use tcl_lsp_nvim.Source.{has_suffix}
use tcl_lsp_nvim.Index.{Index, new_index, put, index_file, remove_file}
use tcl_lsp_nvim.Index.Directory.{Entry, regular, is_source_file}
use tcl_lsp_nvim.Lsp.{Host, Server, path_to_uri, uri_to_path}

-- The kinds of a watched change, with what reading the file gives; `none` is an error.
pub data Change : Type 0 where
  created changed : Option Bytes → Change
  deleted : Change

-- The messages that change the state. `initialize` has the root's path and URI, and the entries that the walk of the
-- file system visits below a root. A change of a document has the texts of its content changes.
pub data Message : Type 0 where
  initialize : Bytes → Bytes → (Bytes → List Entry) → Message
  did_open : Bytes → Bytes → Message
  did_change : Bytes → List Bytes → Message
  did_close : Bytes → Message
  did_change_watched : List (Bytes × Change) → Message

-- The state when a handler ends, and whether a panic ended it.
pub record Outcome : Type 0 where
  pub after : Server
  pub panicked : Bool

unfoldable pub is_indexable : Bytes → Bool
unfolding has_suffix
is_indexable path = has_suffix path (codes ".tcl") || has_suffix path (codes ".rvt")

abbrev pub last_text : List Bytes → Option Bytes
last_text [] = none
last_text (t ∷ []) = some t
last_text (t ∷ u ∷ texts) = last_text (u ∷ texts)

-- `IndexFile` has removed the file and stored the source when its analysis panics.
abbrev pub outcome_of : Bytes → Bytes → Assoc Bytes → Index → Option Index → Outcome
outcome_of path content docs ix (some jx) = record {
  after = record { docs = docs; ix = jx };
  panicked = false;
}
outcome_of path content docs ix none =
    let jx = remove_file path ix in
    record {
      after = record { docs = docs; ix = record jx { src = put path content jx.src } };
      panicked = true;
    }

-- The call of `IndexFile` on the server's index.
unfoldable pub index_at : Bytes → Bytes → Assoc Bytes → Index → Outcome
unfolding index_file remove_file alter
index_at path content docs ix = outcome_of path content docs ix (index_file path content ix)

abbrev pub unchanged : Server → Outcome
unchanged sv = record { after = sv; panicked = false }

-- The function that the walk of `indexWorkspace` calls; `Index.Directory.visit` where nothing panics.
unfoldable pub index_found : Entry → Server → Outcome
unfolding is_source_file index_at
index_found (regular path (some content)) sv =
    if is_source_file path then index_at path content sv.docs sv.ix else unchanged sv
index_found _ sv = unchanged sv

-- A panic ends the walk.
unfoldable pub index_walk : List Entry → Server → Outcome
unfolding index_found
index_walk [] sv = unchanged sv
index_walk (e ∷ es) sv =
    let o = index_found e sv in let rest = index_walk es o.after in if o.panicked then o else rest

unfoldable pub index_workspace : Bytes → (Bytes → List Entry) → Server → Outcome
unfolding index_walk
index_workspace root walk sv = if length root == 0 then unchanged sv else index_walk (walk root) sv

-- `NewServer`
abbrev pub new_server : Server
new_server = record { docs = []; ix = new_index }

module _ (host : Host) where
  -- The root that `initialize` names.
  abbrev pub root_of : Bytes → Bytes → Bytes
  root_of root_path root_uri =
      if length root_path == 0 && not (length root_uri == 0)
      then uri_to_path host root_uri
      else root_path

  unfoldable pub set_doc : Bytes → Bytes → Server → Outcome
  unfolding index_at alter
  set_doc uri text sv = index_at (uri_to_path host uri) text (put uri text sv.docs) sv.ix

  abbrev pub set_last : Bytes → Option Bytes → Server → Outcome
  set_last uri none sv = unchanged sv
  set_last uri (some text) sv = set_doc uri text sv

  -- A file that is not open, indexed as it was read.
  abbrev pub reindex : Bytes → Option Bytes → Option Bytes → Server → Outcome
  reindex path (some live) read sv = unchanged sv
  reindex path none none sv = unchanged sv
  reindex path none (some text) sv = index_at path text sv.docs sv.ix

  abbrev pub watched_change : Bytes → Change → Server → Outcome
  watched_change path (created read) sv =
      reindex path (lookup (path_to_uri host path) sv.docs) read sv
  watched_change path (changed read) sv =
      reindex path (lookup (path_to_uri host path) sv.docs) read sv
  watched_change path deleted sv = unchanged (record sv { ix = remove_file path sv.ix })

  -- A turn of the loop of `applyWatchedChanges`.
  unfoldable pub apply_watched_change : Bytes → Change → Server → Outcome
  unfolding is_indexable lookup index_at remove_file
  apply_watched_change path c sv =
      if is_indexable path then watched_change path c sv else unchanged sv

  -- A panic ends the loop too.
  unfoldable pub apply_watched_changes : List (Bytes × Change) → Server → Outcome
  unfolding apply_watched_change
  apply_watched_changes [] sv = unchanged sv
  apply_watched_changes ((uri, c) ∷ changes) sv =
      let o = apply_watched_change (uri_to_path host uri) c sv in
      let rest = apply_watched_changes changes o.after in if o.panicked then o else rest

  unfoldable pub handle : Message → Server → Outcome
  unfolding set_doc delete apply_watched_changes index_workspace
  handle (initialize root_path root_uri walk) sv =
      index_workspace (root_of root_path root_uri) walk sv
  handle (did_open uri text) sv = set_doc uri text sv
  handle (did_change uri texts) sv = set_last uri (last_text texts) sv
  handle (did_close uri) sv = unchanged (record sv { docs = delete uri sv.docs })
  handle (did_change_watched changes) sv = apply_watched_changes changes sv

  -- The loop of `Run` over the messages that change the state.
  unfoldable pub serve : List Message → Server → Server
  unfolding handle
  serve [] sv = sv
  serve (m ∷ ms) sv = serve ms (handle m sv).after
