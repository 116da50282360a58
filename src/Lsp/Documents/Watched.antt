-- ===== src/Lsp/Documents/Watched.antt =====
-- server/internal/lsp/server.go: the watched changes, and the text of the open documents in the index.
use tcl_lsp_nvim.Base.{
  one_of, true, false, List, [], ◌∷◌, ◌≡◌, inl, inr, refl, sym, ap, ◌∙◌, subst, Option, none, some,
  Bytes, eql, eql_iff, if_cases, if_on, if_off, Bool-cases,
}
use tcl_lsp_nvim.Assoc.{Assoc, lookup}
use tcl_lsp_nvim.Index.{remove_file}
use tcl_lsp_nvim.Lsp.{Host, Server, path_to_uri, uri_to_path}
use tcl_lsp_nvim.Lsp.Documents.{
  Change, created, changed, deleted, is_indexable, reindex, watched_change, apply_watched_change,
  apply_watched_changes, Outcome, unchanged,
}
use tcl_lsp_nvim.Lsp.Documents.Gone.{one_of-head, one_of-tail, gone_by, one_of-gone_by}
use tcl_lsp_nvim.Lsp.Documents.Stored.{lookup-index_at, lookup-remove_file, index_at-docs}
use tcl_lsp_nvim.Lsp.Documents.Current.{IsCanonical, IsCurrent, IsLive, IsCurrent-mono, IsLive-mono}

module _ (host : Host) where
  -- A path that is not open is not the path of an open document.
  apart :
      (path u t : Bytes) (docs : Assoc Bytes)
      → lookup (path_to_uri host path) docs ≡ none
      → lookup u docs ≡ some t
      → IsCanonical host u
      → eql path (uri_to_path host u) ≡ false
  apart path u t docs closed opened c = elim (Bool-cases (eql path (uri_to_path host u))) [
    | inl e ↦
        let q = ap (path_to_uri host) ((eql_iff _ _).0 e) ∙ c in
        let clash = sym closed ∙ ap (λ k. lookup k docs) q ∙ opened in cc
    | inr e ↦ e
  ]

  reindex-IsLive :
      (gone : List Bytes) (path : Bytes) (live_text read : Option Bytes) (sv : Server)
      → lookup (path_to_uri host path) sv.docs ≡ live_text
      → IsLive host gone sv
      → IsLive host gone (reindex host path live_text read sv).after
  reindex-IsLive gone path (some text) read sv h live = live
  reindex-IsLive gone path none none sv h live = live
  reindex-IsLive gone path none (some text) sv h live = λ u t opened.
      let at_u = ap (lookup u) (sym (index_at-docs path text sv.docs sv.ix)) ∙ opened in
      let known = live u t at_u in
      let kept = if_off _ _ _ (apart path u t sv.docs h at_u known.0) in
      (
        known.0,
        subst (IsCurrent host gone (uri_to_path host u) t)
            (sym (lookup-index_at path text sv.docs sv.ix (uri_to_path host u) ∙ kept)) known.1,
      )

  remove_file-IsLive :
      (gone : List Bytes) (path : Bytes) (sv : Server)
      → IsLive host gone sv
      → IsLive host (path ∷ gone) (record sv { ix = remove_file path sv.ix })
  unfolding one_of
  remove_file-IsLive gone path sv live u t opened =
      let known = live u t opened in
      let removed = lookup-remove_file path (uri_to_path host u) sv.ix in
      (
        known.0,
        elim (Bool-cases (eql path (uri_to_path host u))) [
          | inl e ↦ inr (removed ∙ if_on _ _ _ e, one_of-head path (uri_to_path host u) gone e)
          | inr e ↦
              subst (IsCurrent host (path ∷ gone) (uri_to_path host u) t)
                (sym (removed ∙ if_off _ _ _ e))
                (IsCurrent-mono host gone (path ∷ gone) (uri_to_path host u) t _
                  (one_of-tail path (uri_to_path host u) gone) known.1)
        ],
      )

  watched_change-IsLive :
      (gone : List Bytes) (path : Bytes) (c : Change) (sv : Server)
      → IsLive host gone sv
      → IsLive host (gone_by path c gone) (watched_change host path c sv).after
  watched_change-IsLive gone path (created read) sv live =
      reindex-IsLive gone path _ read sv refl live
  watched_change-IsLive gone path (changed read) sv live =
      reindex-IsLive gone path _ read sv refl live
  watched_change-IsLive gone path deleted sv live = remove_file-IsLive gone path sv live

  apply_watched_change-IsLive :
      (gone : List Bytes) (path : Bytes) (c : Change) (sv : Server)
      → IsLive host gone sv
      → IsLive host (gone_by path c gone) (apply_watched_change host path c sv).after
  unfolding apply_watched_change
  apply_watched_change-IsLive gone path c sv live =
      if_cases (λ (o : Outcome). IsLive host (gone_by path c gone) o.after) (is_indexable path)
        (watched_change host path c sv) (unchanged sv)
        (λ _. watched_change-IsLive gone path c sv live)
        λ _. IsLive-mono host gone (gone_by path c gone) sv (λ p. one_of-gone_by p path c gone) live

  -- The paths gone behind a list of watched changes.
  abbrev pub gone_behind : List (Bytes × Change) → List Bytes → List Bytes
  gone_behind [] gone = gone
  gone_behind ((uri, c) ∷ changes) gone =
      gone_behind changes (gone_by (uri_to_path host uri) c gone)

  one_of-gone_behind :
      (p : Bytes) (changes : List (Bytes × Change)) (gone : List Bytes)
      → one_of p gone ≡ true
      → one_of p (gone_behind changes gone) ≡ true
  one_of-gone_behind p [] gone h = h
  one_of-gone_behind p ((uri, c) ∷ changes) gone h =
      one_of-gone_behind p changes _ (one_of-gone_by p (uri_to_path host uri) c gone h)

  pub apply_watched_changes-IsLive :
      (gone : List Bytes) (changes : List (Bytes × Change)) (sv : Server)
      → IsLive host gone sv
      → IsLive host (gone_behind changes gone) (apply_watched_changes host changes sv).after
  unfolding apply_watched_changes
  apply_watched_changes-IsLive gone [] sv live = live
  apply_watched_changes-IsLive gone ((uri, c) ∷ changes) sv live =
      let path = uri_to_path host uri in
      let o = apply_watched_change host path c sv in
      let next = apply_watched_change-IsLive gone path c sv live in
      let all_gone = gone_behind changes (gone_by path c gone) in
      if_cases (λ (r : Outcome). IsLive host all_gone r.after) o.panicked o
        (apply_watched_changes host changes o.after)
        (λ _.
          IsLive-mono host (gone_by path c gone) all_gone o.after
            (λ p. one_of-gone_behind p changes (gone_by path c gone)) next)
        λ _. apply_watched_changes-IsLive (gone_by path c gone) changes o.after next
