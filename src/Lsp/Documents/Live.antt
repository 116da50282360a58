-- ===== src/Lsp/Documents/Live.antt =====
-- server/internal/lsp/server.go: the live text of the open documents in the index, while the server runs.
use tcl_lsp_nvim.Base.{List, [], ◌∷◌, Bytes, All}
use tcl_lsp_nvim.Index.Directory.{Entry}
use tcl_lsp_nvim.Lsp.{Host, Server, uri_to_path}
use tcl_lsp_nvim.Lsp.Documents.{
  initialize, new_server, root_of, index_workspace, Message, did_open, did_change, did_close,
  did_change_watched, last_text, set_doc, set_last, apply_watched_changes, handle, serve,
}
use tcl_lsp_nvim.Lsp.Documents.Gone.{without, gone_if_set}
use tcl_lsp_nvim.Lsp.Documents.Stored.{index_workspace-docs}
use tcl_lsp_nvim.Lsp.Documents.Current.{
  IsCanonical, IsLive, set_doc-IsLive, set_last-IsLive, did_close-IsLive, none_open,
}
use tcl_lsp_nvim.Lsp.Documents.Watched.{gone_behind, apply_watched_changes-IsLive}

module _ (host : Host) where
  -- A document is opened and changed under a URI that `pathToURI` writes, and there is no second `initialize`.
  abbrev pub IsFaithful : Message → Type 0
  IsFaithful (initialize root_path root_uri walk) = ⊥
  IsFaithful (did_open uri text) = IsCanonical host uri
  IsFaithful (did_change uri texts) = IsCanonical host uri
  IsFaithful (did_close uri) = Unit
  IsFaithful (did_change_watched changes) = Unit

  -- The paths whose file was reported deleted, and whose document has not been opened or changed since.
  abbrev pub gone_since : List Message → List Bytes → List Bytes
  gone_since [] gone = gone
  gone_since (did_open uri text ∷ ms) gone = gone_since ms (without (uri_to_path host uri) gone)
  gone_since (did_change uri texts ∷ ms) gone =
      gone_since ms (gone_if_set (uri_to_path host uri) (last_text texts) gone)
  gone_since (did_change_watched changes ∷ ms) gone = gone_since ms (gone_behind host changes gone)
  gone_since (_ ∷ ms) gone = gone_since ms gone

  serving-IsLive :
      (ms : List Message) (gone : List Bytes) (sv : Server)
      → All IsFaithful ms
      → IsLive host gone sv
      → IsLive host (gone_since ms gone) (serve host ms sv)
  unfolding serve handle
  serving-IsLive [] gone sv hs live = live
  serving-IsLive (initialize root_path root_uri walk ∷ ms) gone sv hs live = absurd hs.0
  serving-IsLive (did_open uri text ∷ ms) gone sv (c, hs) live =
      serving-IsLive ms _ (set_doc host uri text sv).after hs
        (set_doc-IsLive host gone uri text sv c live)
  serving-IsLive (did_change uri texts ∷ ms) gone sv (c, hs) live =
      serving-IsLive ms _ (set_last host uri (last_text texts) sv).after hs
        (set_last-IsLive host gone uri (last_text texts) sv c live)
  serving-IsLive (did_close uri ∷ ms) gone sv (_, hs) live =
      serving-IsLive ms gone _ hs (did_close-IsLive host gone uri sv live)
  serving-IsLive (did_change_watched changes ∷ ms) gone sv (_, hs) live =
      serving-IsLive ms _ (apply_watched_changes host changes sv).after hs
        (apply_watched_changes-IsLive host gone changes sv live)

  -- A new server is initialized, with any root and any files below it, and then gets any messages that change the state
  -- but no second `initialize`, with documents opened and changed under URIs that `pathToURI` writes; the analyses may panic. Then each open
  -- document has such a URI, and the source that the index has for its path is its live text, or there is none and the
  -- file has been reported deleted since the document was last opened or changed.
  pub serve-IsLive :
      (root_path root_uri : Bytes) (walk : Bytes → List Entry) (ms : List Message)
      → All IsFaithful ms
      → IsLive host
          (gone_since ms [])
          (serve host (initialize root_path root_uri walk ∷ ms) new_server)
  unfolding serve handle
  serve-IsLive root_path root_uri walk ms hs =
      let root = root_of host root_path root_uri in
      serving-IsLive ms [] (index_workspace root walk new_server).after hs (
        none_open host (index_workspace root walk new_server).after
          (index_workspace-docs root walk new_server))
