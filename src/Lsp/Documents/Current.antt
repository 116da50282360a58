-- ===== src/Lsp/Documents/Current.antt =====
-- server/internal/lsp/server.go: when the index has the text of the open documents, and the messages on one document.
use tcl_lsp_nvim.Base.{
  one_of, true, false, List, [], ◌≡◌, ◌⊎◌, inl, inr, sym, ap, ◌∙◌, subst, Option, none, some,
  if◌then◌else◌, Bytes, eql, eql_iff, if_on, if_off, Bool-cases,
}
use tcl_lsp_nvim.Assoc.{lookup, delete, lookup-alter}
use tcl_lsp_nvim.Index.{put}
use tcl_lsp_nvim.Lsp.{Host, Server, path_to_uri, uri_to_path}
use tcl_lsp_nvim.Lsp.Documents.{set_doc, set_last}
use tcl_lsp_nvim.Lsp.Documents.Gone.{without, one_of-without, gone_if_set}
use tcl_lsp_nvim.Lsp.Documents.Stored.{lookup-delete, lookup-index_at, index_at-docs}

module _ (host : Host) where
  -- A URI as `pathToURI` writes it.
  abbrev pub IsCanonical : Bytes → Type 0
  IsCanonical uri = path_to_uri host (uri_to_path host uri) ≡ uri

  -- The stored source of a path is the live text, or there is none and the path is one of `gone`.
  abbrev pub IsCurrent : List Bytes → Bytes → Bytes → Option Bytes → Type 0
  IsCurrent gone path text s = (s ≡ some text) ⊎ ((s ≡ none) × (one_of path gone ≡ true))

  -- Every open document has a URI as `pathToURI` writes it, and its live text is the stored source of its path, which only
  -- a path of `gone` may lack.
  abbrev pub IsLive : List Bytes → Server → Type 0
  IsLive gone sv =
      (uri text : Bytes)
      → lookup uri sv.docs ≡ some text
      → IsCanonical uri
        × IsCurrent gone (uri_to_path host uri) text (lookup (uri_to_path host uri) sv.ix.src)

  pub IsCurrent-mono :
      (gone gone' : List Bytes) (path text : Bytes) (s : Option Bytes)
      → (one_of path gone ≡ true → one_of path gone' ≡ true)
      → IsCurrent gone path text s
      → IsCurrent gone' path text s
  IsCurrent-mono gone gone' path text s h (inl e) = inl e
  IsCurrent-mono gone gone' path text s h (inr (e, m)) = inr (e, h m)

  same_path :
      (u v : Bytes)
      → IsCanonical u
      → IsCanonical v
      → uri_to_path host u ≡ uri_to_path host v
      → u ≡ v
  same_path u v hu hv h = sym hu ∙ ap (path_to_uri host) h ∙ hv

  differs :
      (u v : Bytes)
      → IsCanonical u
      → IsCanonical v
      → eql u v ≡ false
      → eql (uri_to_path host u) (uri_to_path host v) ≡ false
  differs u v hu hv e = elim (Bool-cases (eql (uri_to_path host u) (uri_to_path host v))) [
    | inl h ↦ let equal = (eql_iff u v).1 (same_path u v hu hv ((eql_iff _ _).0 h)) in cc
    | inr h ↦ h
  ]

  -- An open document behind `setDoc`.
  IsCurrent-set_doc :
      (gone : List Bytes) (uri text u t : Bytes) (sv : Server) (s : Option Bytes)
      → IsCanonical uri
      → IsLive gone sv
      → s ≡ (
          if eql (uri_to_path host uri) (uri_to_path host u)
          then some text
          else lookup (uri_to_path host u) sv.ix.src)
      → (if eql uri u then some text else lookup u sv.docs) ≡ some t
      → IsCanonical u × IsCurrent (without (uri_to_path host uri) gone) (uri_to_path host u) t s
  IsCurrent-set_doc gone uri text u t sv s c live stored opened = elim (Bool-cases (eql uri u)) [
    | inl e ↦
        let q = (eql_iff uri u).0 e in
        let same_text = sym (if_on _ _ _ e) ∙ opened in
        (
          subst IsCanonical q c,
          inl (stored ∙ if_on _ _ _ ((eql_iff _ _).1 (ap (uri_to_path host) q)) ∙ same_text),
        )
    | inr e ↦
        let known = live u t (sym (if_off _ _ _ e) ∙ opened) in
        let path = uri_to_path host u in
        let other = differs uri u c known.0 e in
        (
          known.0,
          subst (IsCurrent (without (uri_to_path host uri) gone) path t)
              (sym (stored ∙ if_off _ _ _ other))
              (IsCurrent-mono gone (without (uri_to_path host uri) gone) path t _
                (λ m. one_of-without path (uri_to_path host uri) gone ∙ if_off _ _ _ other ∙ m)
                known.1),
        )
  ]

  pub set_doc-IsLive :
      (gone : List Bytes) (uri text : Bytes) (sv : Server)
      → IsCanonical uri
      → IsLive gone sv
      → IsLive (without (uri_to_path host uri) gone) (set_doc host uri text sv).after
  unfolding set_doc
  set_doc-IsLive gone uri text sv c live u t opened =
      let path = uri_to_path host uri in
      let docs = put uri text sv.docs in
      let at_u = ap (lookup u) (sym (index_at-docs path text docs sv.ix)) ∙ opened in
      IsCurrent-set_doc gone uri text u t sv _ c live
        (lookup-index_at path text docs sv.ix (uri_to_path host u))
        (sym (lookup-alter [] uri u (λ _. text) sv.docs) ∙ at_u)

  pub set_last-IsLive :
      (gone : List Bytes) (uri : Bytes) (last : Option Bytes) (sv : Server)
      → IsCanonical uri
      → IsLive gone sv
      → IsLive (gone_if_set (uri_to_path host uri) last gone) (set_last host uri last sv).after
  set_last-IsLive gone uri none sv c live = live
  set_last-IsLive gone uri (some text) sv c live = set_doc-IsLive gone uri text sv c live

  pub IsLive-mono :
      (gone gone' : List Bytes) (sv : Server)
      → ((path : Bytes) → one_of path gone ≡ true → one_of path gone' ≡ true)
      → IsLive gone sv
      → IsLive gone' sv
  IsLive-mono gone gone' sv h live u t opened =
      let known = live u t opened in
      (known.0, IsCurrent-mono gone gone' (uri_to_path host u) t _ (h (uri_to_path host u)) known.1)

  pub did_close-IsLive :
      (gone : List Bytes) (uri : Bytes) (sv : Server)
      → IsLive gone sv
      → IsLive gone (record sv { docs = delete uri sv.docs })
  did_close-IsLive gone uri sv live u t opened =
      let after_delete = sym (lookup-delete uri u sv.docs) ∙ opened in
      elim (Bool-cases (eql uri u)) [
        | inl e ↦ let clash = sym (if_on _ _ _ e) ∙ after_delete in cc
        | inr e ↦ live u t (sym (if_off _ _ _ e) ∙ after_delete)
      ]

  pub none_open : (sv : Server) → sv.docs ≡ [] → IsLive [] sv
  unfolding lookup
  none_open sv e u t opened = let none_found = sym (ap (lookup u) e) ∙ opened in cc
