-- ===== src/Desktop/Cursors.antt =====
-- `IncrementalLineCursor` of src/foampilot/desktop/cursors.py. A file is its bytes and its identity;
-- nobody writes to it while a read is under way.
pub mod Chunks
mod Examples
use foam_pilot.Prelude.{
  ℕ, zero, suc, ◌+◌, ◌-◌, String, Bool, true, false, not, ◌&&◌, ◌||◌, Option, none, some, List, [],
  ◌∷◌, ◌++◌, length, if◌then◌else◌, nat_beq, ltb,
}

abbrev pub Bytes : Type 0
Bytes = List ℕ

-- `st_dev` and `st_ino`, and the content
pub record FileState : Type 0 where
  pub device : ℕ
  pub inode : ℕ
  pub content : Bytes

pub record LineChunk : Type 0 where
  pub lines : List (ℕ × String)
  pub bytes_read : ℕ
  pub reset : Bool
  pub truncated_initial_read : Bool

pub record IncrementalLineCursor : Type 0 where
  pub initial_bytes_limit : Option ℕ
  pub offset : ℕ
  pub identity : Option (ℕ × ℕ)
  pub tail : Bytes
  pub line_number : ℕ

abbrev pub new_cursor : Option ℕ → IncrementalLineCursor
new_cursor limit = record {
  initial_bytes_limit = limit;
  offset = 0;
  identity = none;
  tail = [];
  line_number = 0;
}

abbrev pub newline : ℕ
newline = 10

-- a byte in front of what `split` made of the rest
unfoldable pub put_byte : ℕ → List Bytes × Bytes → List Bytes × Bytes
put_byte c ([], tail) = ([], c ∷ tail)
put_byte c (line ∷ lines, tail) = ((c ∷ line) ∷ lines, tail)

-- `split(b"\n")`: all parts but the last, and the last one
unfoldable pub split : Bytes → List Bytes × Bytes
unfolding put_byte
split [] = ([], [])
split (c ∷ bytes) =
    let rest = split bytes in if nat_beq c newline then ([] ∷ rest.0, rest.1) else put_byte c rest

-- `rstrip(b"\r")`
unfoldable pub put_unless_return : ℕ → Bytes → Bytes
put_unless_return c [] = if nat_beq c 13 then [] else c ∷ []
put_unless_return c (d ∷ bytes) = c ∷ d ∷ bytes

unfoldable pub strip_returns : Bytes → Bytes
unfolding put_unless_return
strip_returns [] = []
strip_returns (c ∷ bytes) = put_unless_return c (strip_returns bytes)

-- `seek`
unfoldable pub drop : ℕ → Bytes → Bytes
drop zero bytes = bytes
drop (suc n) [] = []
drop (suc n) (c ∷ bytes) = drop n bytes

-- what stands behind `readline()`
unfoldable pub after_line : Bytes → Bytes
after_line [] = []
after_line (c ∷ bytes) = let rest = after_line bytes in if nat_beq c newline then bytes else rest

unfoldable pub same_identity : ℕ × ℕ → ℕ × ℕ → Bool
same_identity (d, i) (e, j) = nat_beq d e && nat_beq i j

unfoldable pub must_reset : FileState → IncrementalLineCursor → Bool
unfolding same_identity
must_reset f c = elim c.identity [
  | none ↦ false
  | some known ↦ not (same_identity (f.device, f.inode) known) || ltb (length f.content) c.offset
]

is_empty : Bytes → Bool
is_empty [] = true
is_empty (c ∷ bytes) = false

exceeds : ℕ → Option ℕ → Bool
exceeds size none = false
exceeds size (some limit) = ltb limit size

unfoldable pub truncates : FileState → IncrementalLineCursor → Bool
unfolding is_empty exceeds
truncates f c =
    nat_beq c.offset 0
    && nat_beq c.line_number 0
    && is_empty c.tail
    && exceeds (length f.content) c.initial_bytes_limit

unfoldable pub limit_or : Option ℕ → ℕ
limit_or none = 0
limit_or (some n) = n

-- what is read from the position of the cursor on
unfoldable pub payload_of : Bool → FileState → IncrementalLineCursor → Bytes
unfolding drop after_line limit_or
payload_of false f c = drop c.offset f.content
payload_of true f c =
    after_line (drop (length f.content - limit_or c.initial_bytes_limit) f.content)

-- the position at which the payload begins
unfoldable pub position : Bool → FileState → IncrementalLineCursor → Bytes → ℕ
position false f c payload = c.offset
position true f c payload = length f.content - length payload

-- the cursor with `offset`, `_tail` and `_line_number` as they are for a file that is new to it
unfoldable pub rewound : IncrementalLineCursor → IncrementalLineCursor
rewound c = record c { offset = 0; tail = []; line_number = 0 }

module _ (decode : Bytes → String) where
  -- the loop over the complete lines, from the number of the line before on
  unfoldable pub numbered : ℕ → List Bytes → List (ℕ × String)
  unfolding strip_returns
  numbered n [] = []
  numbered n (line ∷ lines) = (n + 1, decode (strip_returns line)) ∷ numbered (n + 1) lines

  -- `read` behind the reset
  unfoldable pub take_lines :
      Bool → Bool → FileState → IncrementalLineCursor → LineChunk × IncrementalLineCursor
  unfolding payload_of position split
  take_lines reset truncated f c =
      let payload = payload_of truncated f c in
      let parts = split (c.tail ++ payload) in
      (
        record {
          lines = numbered c.line_number parts.0;
          bytes_read = length payload;
          reset = reset;
          truncated_initial_read = truncated;
        },
        record c {
          offset = position truncated f c payload + length payload;
          identity = some (f.device, f.inode);
          tail = parts.1;
          line_number = c.line_number + length parts.0;
        },
      )

  unfoldable pub read : FileState → IncrementalLineCursor → LineChunk × IncrementalLineCursor
  unfolding must_reset truncates rewound
  read f c =
      let reset = must_reset f c in
      let c1 = if reset then rewound c else c in take_lines reset (truncates f c1) f c1
