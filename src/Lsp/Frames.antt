-- ===== src/Lsp/Frames.antt =====
-- server/internal/lsp/jsonrpc.go: messages on a stream of bytes, which `Read` takes from the front.
-- `encoding/json`, `strconv` and `strings.TrimSpace` are parameters.
pub mod RoundTrip
use mathlib.Core.Option
use tcl_lsp_nvim.Base.{
  ℕ, zero, suc, ◌+◌, Bool, true, false, ◌&&◌, ◌||◌, List, [], ◌∷◌, ◌++◌, Option, none, some, ltb,
  ◌==◌, if◌then◌else◌, Bytes, codes, length, take, drop, has_prefix,
}

-- What `strconv.Atoi` reads: a negative number has no use here but that it is one.
pub data Number : Type 0 where
  negative : Number
  natural : ℕ → Number

pub record Codec (A : Type 0) : Type 0 where
  pub marshal : A → Option Bytes
  pub unmarshal : Bytes → Option A
  pub itoa : ℕ → Bytes
  pub atoi : Bytes → Option Number
  pub trim_space : Bytes → Bytes

-- `stream_end` is the error of the reader, at the end of the stream or inside a body.
pub data ReadError : Type 0 where
  stream_end bad_length missing_length zero_length too_long bad_body : ReadError

-- A message and the rest of the stream, or an error.
pub data Received (A : Type 0) : Type 0 where
  received : A → Bytes → Received A
  failed : ReadError → Received A

abbrev pub max_message_size : ℕ
max_message_size = 33554432

abbrev line_feed : ℕ
line_feed = 10

-- `ReadString('\n')`
unfoldable pub read_line : Bytes → Option (Bytes × Bytes)
read_line [] = none
read_line (c ∷ s) =
    if c == line_feed
    then some (c ∷ [], s)
    else Option.map (λ (line, rest). (c ∷ line, rest)) (read_line s)

abbrev pub is_line_end : ℕ → Bool
is_line_end c = c == 13 || c == line_feed

-- `strings.TrimRight(line, "\r\n")`
unfoldable pub trim_line : Bytes → Bytes
trim_line [] = []
trim_line (c ∷ s) =
    let rest = trim_line s in if is_line_end c && length rest == 0 then [] else c ∷ rest

abbrev pub field_name : Bytes
field_name = codes "Content-Length:"

module _ {A : Type 0} (codec : Codec A) where
  abbrev pub unmarshalled : Bytes → Option A → Received A
  unmarshalled rest none = failed bad_body
  unmarshalled rest (some m) = received m rest

  -- `Read` behind the loop.
  abbrev pub read_body : Number → Bytes → Received A
  read_body negative s = failed missing_length
  read_body (natural n) s =
      if n == 0
      then failed zero_length
      else if ltb max_message_size n
      then failed too_long
      else if ltb (length s) n
      then failed stream_end
      else unmarshalled (drop n s) (codec.unmarshal (take n s))

  abbrev pub with_length : (Bytes → Number → Received A) → Bytes → Option Number → Received A
  with_length rec s none = failed bad_length
  with_length rec s (some n) = rec s n

  -- The loop's turn at a line.
  abbrev pub read_field :
      (Bytes → Number → Received A) → Number → Option (Bytes × Bytes) → Received A
  read_field rec n none = failed stream_end
  read_field rec n (some (line, s)) =
      if length (trim_line line) == 0
      then read_body n s
      else if has_prefix (trim_line line) field_name
      then with_length rec s (codec.atoi (codec.trim_space (drop 15 (trim_line line))))
      else rec s n

  -- The loop, on fuel: each turn takes a byte at least.
  unfoldable pub read_fields : ℕ → Bytes → Number → Received A
  unfolding read_line trim_line has_prefix
  read_fields zero s n = failed stream_end
  read_fields (suc fuel) s n = read_field (read_fields fuel) n (read_line s)

  unfoldable pub read_message : Bytes → Received A
  unfolding read_fields
  read_message s = read_fields (suc (length s)) s negative

  abbrev pub framed : Bytes → Bytes
  framed body = (codes "Content-Length: " ++ codec.itoa (length body)) ++ 13 ∷ 10 ∷ 13 ∷ 10 ∷ body

  -- What `Write` writes; `none` is the error of `json.Marshal`.
  abbrev pub write_message : A → Option Bytes
  write_message m = Option.map framed (codec.marshal m)
