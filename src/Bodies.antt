-- ===== src/Bodies.antt =====
-- server/internal/tcl/bodies.go: the script bodies of a command, each with the scope it runs in.
pub mod Words
pub mod Nested
pub mod Shorter
use tcl_lsp_nvim.Base.{
  ℕ, zero, suc, ◌+◌, ◌-◌, Bool, true, false, ◌&&◌, ◌||◌, not, List, [], ◌∷◌, ◌++◌, map, Option,
  none, some, ◌==◌, leb, ltb, if◌then◌else◌, Bytes, codes, length, take, drop, slice, get_elem?,
  has_prefix, eql, one_of, last_index_of,
}
use tcl_lsp_nvim.Parser.{WordKind, bare, braced, quoted, Word, Command}
use tcl_lsp_nvim.Syntax.{
  FrameKind, frame_namespace, frame_proc, frame_class, Context, is_bare, is_braced, in_class,
  in_proc, in_namespace, is_word, is_cmd, is_either, qualify_name, qualify_namespace, braced_inner,
  inner_base, is_literal_name, is_plain_name, braced_of, braced_at, last_word, last_braced,
  has_last_braced, text_at,
}
use tcl_lsp_nvim.Scripts.{script_bodies}

-- `bodyScope`
pub record Body : Type 0 where
  pub inner : Bytes
  pub base : ℕ
  pub context : Context

unfoldable pub is_access_modifier : Bytes → Bool
unfolding one_of
is_access_modifier s = one_of s (codes "public" ∷ codes "protected" ∷ codes "private" ∷ [])

unfoldable pub is_modifiable_member : Bytes → Bool
unfolding one_of
is_modifiable_member s =
    one_of s (codes "method" ∷ codes "proc" ∷ codes "variable" ∷ codes "common" ∷ [])

unfoldable pub member_words : Command → Command
unfolding is_access_modifier is_modifiable_member
member_words (a ∷ m ∷ w) =
    if is_bare a && is_access_modifier a.text && is_bare m && is_modifiable_member m.text
    then m ∷ w
    else a ∷ m ∷ w
member_words w = w

unfoldable pub min_member_body_words : Command → ℕ
unfolding is_cmd
min_member_body_words w =
    if is_cmd w (codes "constructor") then 3 else if is_cmd w (codes "destructor") then 2 else 4

-- The words NAME, ARGS and BODY of a proc.
pub record ProcWords : Type 0 where
  pub name : Word
  pub args : Word
  pub body : Word

abbrev list_or_data_heads : List Bytes
list_or_data_heads =
    codes "set"
    ∷ codes "list"
    ∷ codes "lappend"
    ∷ codes "lassign"
    ∷ codes "lset"
    ∷ codes "linsert"
    ∷ codes "lreplace"
    ∷ codes "concat"
    ∷ codes "dict"
    ∷ codes "array"
    ∷ codes "append"
    ∷ codes "return"
    ∷ codes "expr"
    ∷ []

-- The loop of `decoratedProcDef`: the first `proc NAME ARGS BODY`.
unfoldable pub find_proc : Command → Option ProcWords
unfolding is_literal_name eql
find_proc (p ∷ n ∷ a ∷ b ∷ w) =
    let later = find_proc (n ∷ a ∷ b ∷ w) in
    if is_word (codes "proc") p && is_plain_name n && is_braced b
    then some (record { name = n; args = a; body = b })
    else later
find_proc _ = none

unfoldable pub decorated_proc_def : Command → Option ProcWords
unfolding find_proc one_of
decorated_proc_def [] = none
decorated_proc_def (h ∷ w) =
    if ltb (length w) 4 || not (is_bare h) || one_of h.text list_or_data_heads
    then none
    else find_proc w

-- A body is the inside of a braced word; its scope may depend on where that begins.
abbrev pub body_of : Word → ℕ → (ℕ → Context) → Body
body_of w base scope = record {
  inner = braced_inner w;
  base = inner_base w base;
  context = scope (inner_base w base);
}

-- A new proc scope, in class `class`.
abbrev pub proc_scope : Context → Bytes → ℕ → Context
proc_scope cx class inner = record { ns = cx.ns; frame = frame_proc; scope = inner; class = class }

abbrev pub bodies_of : List Word → ℕ → (ℕ → Context) → List Body
bodies_of ws base scope = map (λ w. body_of w base scope) ws

-- The init block of a constructor, `w[len(w)-2]`.
unfoldable pub init_block : Command → List Word
unfolding is_cmd
init_block w =
    if is_cmd w (codes "constructor") && leb 4 (length w) then braced_at w (length w - 2) else []

unfoldable pub member_bodies : Command → ℕ → Context → List Body
unfolding min_member_body_words init_block
member_bodies w base cx =
    if ltb (length w) (min_member_body_words w)
    then []
    else bodies_of (last_braced w ++ init_block w) base (proc_scope cx cx.class)

-- The class of a qualified method name: what stands in front of its last `::`, if anything does.
abbrev pub method_class : Bytes → Option ℕ → Option Bytes
method_class full none = none
method_class full (some zero) = none
method_class full (some (suc i)) = some (take (suc i) full)

abbrev pub external_body : Command → ℕ → Context → Option Bytes → List Body
external_body w base cx none = []
external_body w base cx (some class) =
    bodies_of (last_braced w) base (proc_scope cx (qualify_name class cx.ns))

abbrev pub plain_bodies : Command → ℕ → Context → Option ProcWords → List Body
plain_bodies w base cx (some p) = body_of p.body base (proc_scope cx cx.class) ∷ []
plain_bodies w base cx none = bodies_of (script_bodies w) base (λ _. cx)

abbrev pub namespace_scope : Command → Context → ℕ → Context
namespace_scope w cx _ = record {
  ns = qualify_namespace (text_at w 2) cx.ns;
  frame = frame_namespace;
  scope = 0;
  class = cx.class;
}

abbrev pub class_scope : Command → Context → ℕ → Context
class_scope w cx _ = record {
  ns = cx.ns;
  frame = frame_class;
  scope = 0;
  class = qualify_name (text_at w 1) cx.ns;
}

abbrev pub is_member : Command → Bool
is_member w =
    is_cmd w (codes "method") || is_cmd w (codes "constructor") || is_cmd w (codes "destructor")

-- The switch of `childBodies`, behind the stripping of an access modifier.
unfoldable pub child_bodies_of : Command → ℕ → Context → List Body
unfolding is_cmd eql qualify_name last_index_of decorated_proc_def script_bodies member_bodies
child_bodies_of w base cx =
    if is_cmd w (codes "namespace")
      && leb 4 (length w)
      && eql (text_at w 1) (codes "eval")
      && has_last_braced w
    then bodies_of (last_braced w) base (namespace_scope w cx)
    else if is_cmd w (codes "proc") && leb 4 (length w) && has_last_braced w
    then bodies_of (last_braced w) base (proc_scope cx cx.class)
    else if is_either w (codes "itcl::class") (codes "::itcl::class")
        && leb 3 (length w)
        && has_last_braced w
    then bodies_of (last_braced w) base (class_scope w cx)
    else if in_class cx.frame && is_member w && has_last_braced w
    then member_bodies w base cx
    else if is_either w (codes "itcl::body") (codes "::itcl::body")
        && leb 4 (length w)
        && has_last_braced w
    then external_body w base cx
        (method_class (text_at w 1) (last_index_of (text_at w 1) (codes "::")))
    else plain_bodies w base cx (decorated_proc_def w)

unfoldable pub child_bodies : Command → ℕ → Context → List Body
unfolding child_bodies_of member_words braced_inner
child_bodies c base cx = child_bodies_of (if in_class cx.frame then member_words c else c) base cx
