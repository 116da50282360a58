-- ===== src/Parser/Words.antt =====
-- The words of the parsed commands against the tokens and the source text.
use tcl_lsp_nvim.Base.{
  ℕ, ◌≤◌, ◌<◌, Bool, List, [], ◌∷◌, ◌++◌, ◌≡◌, ◌≢◌, refl, ap, arith, Bytes, length, append_assoc,
  All, All-flatten, flatten,
}
use tcl_lsp_nvim.Scanner.{Kind, eof, comment, word, Token, scan}
use tcl_lsp_nvim.Scanner.Tiles.{Tiles, stop, token, Fits, scan-Tiles}
use tcl_lsp_nvim.Scanner.Ranges.{IsRange, scan-IsRange}
use tcl_lsp_nvim.Parser.{Word, Command, word_kind, word_from_token, flush, group, parse}

-- The words among the tokens, in order.
abbrev pub words_of : List Token → List Word
words_of [] = []
words_of (tk ∷ toks) = elim tk.kind [
  | word ↦ word_from_token tk ∷ words_of toks
  | _ ↦ words_of toks
]

flatten-flush :
    (cur : List Word) (cmds : List Command) → flatten (flush cur cmds) ≡ cur ++ flatten cmds
flatten-flush [] cmds = refl
flatten-flush (w ∷ cur) cmds = refl

flatten-group-token :
    (tk : Token) (toks : List Token)
    → ((cur : List Word) → flatten (group cur toks) ≡ cur ++ words_of toks)
    → tk.kind ≢ eof
    → (cur : List Word) → flatten (group cur (tk ∷ toks)) ≡ cur ++ words_of (tk ∷ toks)
unfolding group
flatten-group-token tk toks ih ne cur = ground (
  arith,
  ih cur,
  ih (cur ++ word_from_token tk ∷ []),
  ih [],
  append_assoc cur (word_from_token tk ∷ []) (words_of toks),
  flatten-flush cur (group [] toks),
)

flatten-group :
    {pos : ℕ} {b : Bool} {s : Bytes} {toks : List Token}
    → Tiles pos b s toks
    → (cur : List Word) → flatten (group cur toks) ≡ cur ++ words_of toks
unfolding group
flatten-group (stop {t} g e) cur = ground (arith, flatten-flush cur [])
flatten-group (token {t} {toks} g e st en f ne cs r) cur =
    flatten-group-token t toks (flatten-group r) ne cur

-- No word is lost, moved or made up: the commands' words, in order, are the scanner's.
pub flatten-parse : (src : Bytes) → flatten (parse src) ≡ words_of (scan src)
unfolding parse
flatten-parse src = flatten-group (scan-Tiles src) []

flush-ne-nil :
    (cur : List Word) (cmds : List Command)
    → All (λ c. c ≢ []) cmds
    → All (λ c. c ≢ []) (flush cur cmds)
flush-ne-nil [] cmds h = h
flush-ne-nil (w ∷ cur) cmds h = (λ e. cc, h)

group-ne-nil : (cur : List Word) (toks : List Token) → All (λ c. c ≢ []) (group cur toks)
unfolding group
group-ne-nil cur [] = tt
group-ne-nil cur (tk ∷ toks) =
    elim tk.kind
      as (λ k.
        All (λ c. c ≢ [])
          (elim k [
            | word ↦ group (cur ++ word_from_token tk ∷ []) toks
            | comment ↦ group cur toks
            | _ ↦ flush cur (group [] toks)
          ])) [
            | word ↦ group-ne-nil (cur ++ word_from_token tk ∷ []) toks
            | comment ↦ group-ne-nil cur toks
            | _ ↦ flush-ne-nil cur (group [] toks) (group-ne-nil [] toks)
          ]

-- No command is empty.
pub parse-ne-nil : (src : Bytes) → All (λ c. c ≢ []) (parse src)
unfolding parse
parse-ne-nil src = group-ne-nil [] (scan src)

-- What `wordFromToken` relies on: a word has text, which stands at its range, its first byte
-- separates nothing, and it alone decides the kind.
pub record IsWordOf (src : Bytes) (w : Word) : Type 0 where
  pub range : IsRange src w.start w.end w.text
  pub fits : Fits word w.text
  pub classified : w.kind ≡ word_kind w.text

words_of-All :
    (P : Word → Type 0) (toks : List Token)
    → All (λ t. t.kind ≡ word → P (word_from_token t)) toks
    → All P (words_of toks)
words_of-All P [] h = tt
words_of-All P (tk ∷ toks) h = keep (words_of-All P toks h.1) tk.kind h.0
  where
    keep :
        All P (words_of toks)
        → (k : Kind) → (k ≡ word → P (word_from_token tk))
        → All P (elim k [ word ↦ word_from_token tk ∷ words_of toks | _ ↦ words_of toks ])
    keep ih word p = (p refl, ih)
    keep ih _ p = ih

Tiles-Fits :
    {pos : ℕ} {b : Bool} {s : Bytes} {toks : List Token}
    → Tiles pos b s toks
    → All (λ t. Fits t.kind t.text) toks
Tiles-Fits (stop g e) = (rw e refl, tt)
Tiles-Fits (token g e st en f ne cs r) = (f, Tiles-Fits r)

words_of-IsWordOf :
    (src : Bytes) (toks : List Token)
    → All (λ t. Fits t.kind t.text) toks
    → All (λ t. IsRange src t.start t.end t.text) toks
    → All (λ t. t.kind ≡ word → IsWordOf src (word_from_token t)) toks
words_of-IsWordOf src [] f h = tt
words_of-IsWordOf src (t ∷ toks) (f, fs) (h, hs) = (
  λ k. record { range = h; fits = rw k at f; classified = refl },
  words_of-IsWordOf src toks fs hs,
)

-- Every word of every command is a piece of the source, of the kind that its first byte says.
pub parse-IsWordOf : (src : Bytes) → All (All (IsWordOf src)) (parse src)
parse-IsWordOf src = All-flatten (IsWordOf src) (parse src) (
    rw (flatten-parse src) (
      words_of-All (IsWordOf src) (scan src)
        (words_of-IsWordOf src (scan src) (Tiles-Fits (scan-Tiles src)) (scan-IsRange src))))

-- The words stand one behind the other from `pos` on, and none is empty.
abbrev pub AreOrdered : ℕ → List Word → Type 0
AreOrdered pos [] = Unit
AreOrdered pos (w ∷ ws) = (pos ≤ w.start) × (w.start < w.end) × AreOrdered w.end ws

AreOrdered-le : {p q : ℕ} (ws : List Word) → p ≤ q → AreOrdered q ws → AreOrdered p ws
AreOrdered-le [] h o = tt
AreOrdered-le (w ∷ ws) h o = (omega arith, o.1, o.2)

words_of-AreOrdered :
    {pos : ℕ} {b : Bool} {s : Bytes} {toks : List Token}
    → Tiles pos b s toks
    → AreOrdered pos (words_of toks)
words_of-AreOrdered (stop {t} g e) = rw e tt
words_of-AreOrdered {pos} (token {t} {toks} g e st en f ne cs r) =
    keep (words_of-AreOrdered r) t.kind f
  where
    keep :
        AreOrdered t.end (words_of toks)
        → (k : Kind) → Fits k t.text
        → AreOrdered pos (elim k [ word ↦ word_from_token t ∷ words_of toks | _ ↦ words_of toks ])
    keep ih word (c, u, q, _) = (omega arith, omega (arith, ap length q), ih)
    keep ih _ f = AreOrdered-le (words_of toks) (omega arith) ih

-- Over the whole text, the words stand in the order of their offsets, and no two overlap.
pub parse-AreOrdered : (src : Bytes) → AreOrdered 0 (flatten (parse src))
parse-AreOrdered src = rw (flatten-parse src) (words_of-AreOrdered (scan-Tiles src))
