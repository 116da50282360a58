-- ===== src/Bodies/Words.antt =====
-- Every body of a command is the inside of one of its words.
use tcl_lsp_nvim.Base.{
  ℕ, ◌-◌, not, ◌&&◌, ◌||◌, List, [], ◌∷◌, ◌++◌, Option, none, some, leb, ltb, if◌then◌else◌, codes,
  length, eql, one_of, All, All-append, if_cases, last_index_of,
}
use tcl_lsp_nvim.Parser.{Word, Command}
use tcl_lsp_nvim.Syntax.{
  Context, is_bare, is_braced, in_class, is_word, is_cmd, is_either, is_plain_name, qualify_name,
  last_braced, has_last_braced, text_at,
}
use tcl_lsp_nvim.Scripts.{script_bodies}
use tcl_lsp_nvim.Scripts.Words.{All-braced_at, last_braced-All, script_bodies-All}
use tcl_lsp_nvim.Bodies.{
  Body, is_access_modifier, is_modifiable_member, member_words, min_member_body_words, ProcWords,
  find_proc, decorated_proc_def, list_or_data_heads, body_of, bodies_of, proc_scope, init_block,
  member_bodies, method_class, external_body, plain_bodies, namespace_scope, class_scope, is_member,
  child_bodies_of, child_bodies,
}

-- Whatever scope it runs in, the inside of `w` as a body satisfies `P`.
abbrev pub OfWord : (Body → Type 0) → ℕ → Word → Type 0
OfWord P base w = (scope : ℕ → Context) → P (body_of w base scope)

module _ (P : Body → Type 0) (base : ℕ) where
  bodies_of-All :
      (ws : List Word) (scope : ℕ → Context)
      → All (OfWord P base) ws
      → All P (bodies_of ws base scope)
  bodies_of-All [] scope h = tt
  bodies_of-All (w ∷ ws) scope (p, h) = (p scope, bodies_of-All ws scope h)

  member_words-All : (c : Command) → All (OfWord P base) c → All (OfWord P base) (member_words c)
  unfolding member_words
  member_words-All [] h = tt
  member_words-All (a ∷ []) h = h
  member_words-All (a ∷ m ∷ w) h =
      if_cases (All (OfWord P base))
        (is_bare a && is_access_modifier a.text && is_bare m && is_modifiable_member m.text) _ _
        (λ _. h.1) λ _. h

  abbrev BodyIn : Option ProcWords → Type 0
  BodyIn none = Unit
  BodyIn (some p) = OfWord P base p.body

  find_proc-BodyIn : (w : Command) → All (OfWord P base) w → BodyIn (find_proc w)
  unfolding find_proc
  find_proc-BodyIn (p ∷ n ∷ a ∷ b ∷ w) h =
      if_cases BodyIn (is_word (codes "proc") p && is_plain_name n && is_braced b) _ _
        (λ _. h.1.1.1.0) λ _. find_proc-BodyIn (n ∷ a ∷ b ∷ w) h.1
  find_proc-BodyIn _ h = tt

  decorated_proc_def-BodyIn : (w : Command) → All (OfWord P base) w → BodyIn (decorated_proc_def w)
  unfolding decorated_proc_def
  decorated_proc_def-BodyIn [] h = tt
  decorated_proc_def-BodyIn (x ∷ w) (p, h) =
      if_cases BodyIn (ltb (length w) 4 || not (is_bare x) || one_of x.text list_or_data_heads) _ _
        (λ _. tt) λ _. find_proc-BodyIn w h

  member_bodies-All :
      (w : Command) (cx : Context) → All (OfWord P base) w → All P (member_bodies w base cx)
  unfolding member_bodies init_block
  member_bodies-All w cx h =
      if_cases (All P) (ltb (length w) (min_member_body_words w)) _ _ (λ _. tt)
        λ _. bodies_of-All (last_braced w ++ init_block w) (proc_scope cx cx.class) (
          All-append (OfWord P base) (last_braced w) (init_block w)
            (last_braced-All (OfWord P base) w h)
            (if_cases (All (OfWord P base)) (is_cmd w (codes "constructor") && leb 4 (length w)) _ _
              (λ _. All-braced_at (OfWord P base) w (length w - 2) h) λ _. tt))

  plain_bodies-All :
      (w : Command) (cx : Context) (p : Option ProcWords)
      → BodyIn p
      → All (OfWord P base) w
      → All P (plain_bodies w base cx p)
  plain_bodies-All w cx (some p) b h = (b (proc_scope cx cx.class), tt)
  plain_bodies-All w cx none b h =
      bodies_of-All (script_bodies w) (λ _. cx) (script_bodies-All (OfWord P base) w h)

  external_body-All :
      (w : Command) (cx : Context) (class : Option (List ℕ))
      → All (OfWord P base) w
      → All P (external_body w base cx class)
  external_body-All w cx none h = tt
  external_body-All w cx (some class) h =
      bodies_of-All (last_braced w) (proc_scope cx (qualify_name class cx.ns))
        (last_braced-All (OfWord P base) w h)

  child_bodies_of-All :
      (w : Command) (cx : Context) → All (OfWord P base) w → All P (child_bodies_of w base cx)
  unfolding child_bodies_of
  child_bodies_of-All w cx h =
      let last = last_braced-All (OfWord P base) w h in
      if_cases (All P)
        (is_cmd w (codes "namespace")
          && leb 4 (length w)
          && eql (text_at w 1) (codes "eval")
          && has_last_braced w)
        _ _ (λ _. bodies_of-All (last_braced w) (namespace_scope w cx) last)
        λ _.
          if_cases (All P) (is_cmd w (codes "proc") && leb 4 (length w) && has_last_braced w) _ _
            (λ _. bodies_of-All (last_braced w) (proc_scope cx cx.class) last)
            λ _.
              if_cases (All P)
                (is_either w (codes "itcl::class") (codes "::itcl::class")
                  && leb 3 (length w)
                  && has_last_braced w)
                _ _ (λ _. bodies_of-All (last_braced w) (class_scope w cx) last)
                λ _.
                  if_cases (All P) (in_class cx.frame && is_member w && has_last_braced w) _ _
                    (λ _. member_bodies-All w cx h)
                    λ _.
                      if_cases (All P)
                        (is_either w (codes "itcl::body") (codes "::itcl::body")
                          && leb 4 (length w)
                          && has_last_braced w)
                        _ _
                        (λ _.
                          external_body-All w cx
                            (method_class (text_at w 1) (last_index_of (text_at w 1) (codes "::")))
                            h)
                        λ _.
                          plain_bodies-All w cx (decorated_proc_def w)
                            (decorated_proc_def-BodyIn w h) h

  pub child_bodies-All :
      (c : Command) (cx : Context) → All (OfWord P base) c → All P (child_bodies c base cx)
  unfolding child_bodies
  child_bodies-All c cx h =
      child_bodies_of-All (if in_class cx.frame then member_words c else c) cx (
        if_cases (All (OfWord P base)) (in_class cx.frame) (member_words c) c
          (λ _. member_words-All c h) λ _. h)
