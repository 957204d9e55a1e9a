-- ===== src/Desktop/Cursors/Chunks.antt =====
-- How the reads of src/foampilot/desktop/cursors.py fit together.
use mathlib.Core.Path.{subst}
use mathlib.Core.List.{append_assoc, append-nil}
use foam_pilot.Prelude.{
  ◌≡◌, refl, sym, ap, ◌∙◌, ℕ, suc, ◌+◌, ◌⊎◌, inl, inr, String, Bool, true, false, Option, none,
  some, List, [], ◌∷◌, ◌++◌, length, length-append, nat_beq, nat_beq_iff, arith, Bool-cases,
}
use foam_pilot.Desktop.Cursors.{
  Bytes, FileState, LineChunk, IncrementalLineCursor, new_cursor, newline, put_byte, split, drop,
  same_identity, must_reset, truncates, payload_of, position, strip_returns, rewound, numbered,
  take_lines, read,
}

put_byte-append :
    (c : ℕ) (lines : List Bytes) (tail ys : Bytes)
    → nat_beq c newline ≡ false
    → let (more, rest) = split (tail ++ ys) in
      let (all, last) = put_byte c (lines, tail) in
      put_byte c (lines ++ more, rest) ≡ (all ++ (split (last ++ ys)).0, (split (last ++ ys)).1)
unfolding put_byte split
put_byte-append c [] tail ys e = rw (e, split) refl
put_byte-append c (line ∷ lines) tail ys e = refl

split-append :
    (xs ys : Bytes)
    → let (lines, tail) = split xs in
      let (more, rest) = split (tail ++ ys) in split (xs ++ ys) ≡ (lines ++ more, rest)
unfolding split put_byte
split-append [] ys = refl
split-append (c ∷ xs) ys = elim (Bool-cases (nat_beq c newline)) [
  | inl e ↦ rw (e, split, split-append xs ys) refl
  | inr e ↦ rw (e, split, split-append xs ys) (put_byte-append c (split xs).0 (split xs).1 ys e)
]

drop-length : (xs ys : Bytes) → drop (length xs) (xs ++ ys) ≡ ys
unfolding drop
drop-length [] ys = refl
drop-length (x ∷ xs) ys = drop-length xs ys

-- the cursor has read all of the file
pub record IsCurrent (f : FileState) (c : IncrementalLineCursor) : Type 0 where
  pub followed : (c.identity ≡ none) ⊎ (c.identity ≡ some (f.device, f.inode))
  pub at_end : c.offset ≡ length f.content
  pub kept : c.tail ≡ (split f.content).1
  pub counted : c.line_number ≡ length (split f.content).0
  pub unlimited : c.initial_bytes_limit ≡ none

-- the file after an append
abbrev pub grown : FileState → Bytes → FileState
grown f bytes = record f { content = f.content ++ bytes }

stays :
    (f : FileState) (c : IncrementalLineCursor) (new : Bytes)
    → IsCurrent f c
    → must_reset (grown f new) c ≡ false
unfolding must_reset same_identity
stays f c new h = ground (
  arith,
  h.followed,
  h.at_end,
  length-append f.content new,
  nat_beq_iff f.device f.device,
  nat_beq_iff f.inode f.inode,
)

complete :
    (f : FileState) (c : IncrementalLineCursor) (new : Bytes)
    → IsCurrent f c
    → truncates (grown f new) c ≡ false
unfolding truncates
complete f c new h = ground (arith, h.unlimited)

-- all that was appended
abbrev pub joined : List Bytes → Bytes
joined [] = []
joined (chunk ∷ chunks) = chunk ++ joined chunks

module _ (decode : Bytes → String) where
  numbered-append :
      (n : ℕ) (ls ms : List Bytes)
      → numbered decode n (ls ++ ms) ≡ numbered decode n ls ++ numbered decode (n + length ls) ms
  unfolding numbered
  numbered-append n [] ms = ap (λ k. numbered decode k ms) (omega arith)
  numbered-append n (l ∷ ls) ms =
      let e : n + 1 + length ls ≡ n + suc (length ls) = omega arith in
      ap (λ r. (n + 1, decode (strip_returns l)) ∷ r)
        (numbered-append (n + 1) ls ms
          ∙ ap (λ k. numbered decode (n + 1) ls ++ numbered decode k ms) e)

  -- a read that finds the same file with more behind what was read
  read-grown :
      (f : FileState) (c : IncrementalLineCursor) (new : Bytes)
      → IsCurrent f c
      → read decode (grown f new) c ≡ take_lines decode false false (grown f new) c
  unfolding read
  read-grown f c new h = rw (stays f c new h, read, complete f c new h) refl

  -- the lines of a content, numbered from 1 on
  abbrev pub lines_of : Bytes → List (ℕ × String)
  lines_of content = numbered decode 0 (split content).0

  -- What one such read gives: the lines that were not complete before, and a cursor that is current.
  record Follows (f : FileState) (new : Bytes) (r : LineChunk × IncrementalLineCursor)
      : Type 0 where
    pub current : IsCurrent (grown f new) r.1
    pub added : lines_of (f.content ++ new) ≡ lines_of f.content ++ r.0.lines

  take_lines-Follows :
      (f : FileState) (c : IncrementalLineCursor) (new : Bytes)
      → IsCurrent f c
      → Follows f new (take_lines decode false false (grown f new) c)
  unfolding take_lines payload_of position
  take_lines-Follows f c new h =
      let p : drop c.offset (f.content ++ new) ≡ new =
        ap (λ n. drop n (f.content ++ new)) h.at_end ∙ drop-length f.content new in
      let t : c.tail ++ drop c.offset (f.content ++ new) ≡ (split f.content).1 ++ new =
        ap (λ x. x ++ drop c.offset (f.content ++ new)) h.kept
        ∙ ap (λ x. (split f.content).1 ++ x) p in
      let s = split-append f.content new in
      let n : 0 + length (split f.content).0 ≡ c.line_number = omega (arith, h.counted) in
      record {
        current = record {
          followed = inr refl;
          at_end = omega (arith, h.at_end, ap (λ x. length x) p, length-append f.content new);
          kept = ap (λ x. (split x).1) t ∙ ap (λ x. x.1) (sym s);
          counted = omega (
            arith,
            h.counted,
            ap (λ x. length (split x).0) t,
            ap (λ x. length x.0) s,
            length-append (split f.content).0 (split ((split f.content).1 ++ new)).0,
          );
          unlimited = h.unlimited;
        };
        added =
            ap (λ x. numbered decode 0 x.0) s
            ∙ numbered-append 0 (split f.content).0 (split ((split f.content).1 ++ new)).0
            ∙ ap
                (λ x.
                  lines_of f.content
                  ++ numbered decode (0 + length (split f.content).0) (split x).0)
                (sym t)
            ∙ ap
                (λ n.
                  lines_of f.content
                  ++ numbered decode n (split (c.tail ++ drop c.offset (f.content ++ new))).0)
                n;
      }

  -- the reads after each of the appends, and all lines that they give
  abbrev pub reads :
      FileState → List Bytes → IncrementalLineCursor → List (ℕ × String) × IncrementalLineCursor
  reads f [] c = ([], c)
  reads f (chunk ∷ chunks) c =
      let r = read decode (grown f chunk) c in
      let rest = reads (grown f chunk) chunks r.1 in (r.0.lines ++ rest.0, rest.1)

  reads-Follows :
      (f : FileState) (chunks : List Bytes) (c : IncrementalLineCursor)
      → IsCurrent f c
      → IsCurrent (grown f (joined chunks)) (reads f chunks c).1
        × (lines_of (f.content ++ joined chunks) ≡ lines_of f.content ++ (reads f chunks c).0)
  reads-Follows f [] c h = (
    subst (λ x. IsCurrent (record f { content = x }) c) (sym (append-nil f.content)) h,
    ap lines_of (append-nil f.content) ∙ sym (append-nil (lines_of f.content)),
  )
  reads-Follows f (chunk ∷ chunks) c h =
      let r = read decode (grown f chunk) c in
      let s : Follows f chunk r =
        subst (Follows f chunk) (sym (read-grown f c chunk h)) (take_lines-Follows f c chunk h) in
      let (current, added) = reads-Follows (grown f chunk) chunks r.1 s.current in
      let e = append_assoc f.content chunk (joined chunks) in
      (
        subst (λ x. IsCurrent (record f { content = x }) (reads f (chunk ∷ chunks) c).1) e current,
        ap lines_of (sym e)
            ∙ added
            ∙ ap (λ l. l ++ (reads (grown f chunk) chunks r.1).0) s.added
            ∙ append_assoc (lines_of f.content) r.0.lines _,
      )

  -- However a file is written in pieces, a new cursor without a limit that reads it after each piece
  -- gives, one after the other, exactly the complete lines of the whole file, numbered from 1 on, no
  -- line twice and none left out; it ends at the end of the file, and keeps the piece of a line that
  -- stands behind the last line end.
  pub reads-whole :
      (device inode : ℕ) (chunks : List Bytes)
      → let f : FileState = record { device = device; inode = inode; content = [] } in
        ((reads f chunks (new_cursor none)).0 ≡ lines_of (joined chunks))
        × IsCurrent (grown f (joined chunks)) (reads f chunks (new_cursor none)).1
  unfolding split numbered
  reads-whole device inode chunks =
      let f : FileState = record { device = device; inode = inode; content = [] } in
      let start : IsCurrent f (new_cursor none) = record {
        followed = inl refl;
        at_end = refl;
        kept = refl;
        counted = refl;
        unlimited = refl;
      } in
      let (current, lines) = reads-Follows f chunks (new_cursor none) start in (sym lines, current)

  -- two reads that say the same but for the reset
  abbrev pub SameButReset :
      LineChunk × IncrementalLineCursor → LineChunk × IncrementalLineCursor → Type 0
  SameButReset r fresh = (r.1 ≡ fresh.1) × (r.0 ≡ record fresh.0 { reset = true })

  take_lines-rewound :
      (truncated : Bool) (f : FileState) (c : IncrementalLineCursor)
      → SameButReset
          (take_lines decode true truncated f (rewound c))
          (take_lines decode false truncated f (new_cursor c.initial_bytes_limit))
  unfolding take_lines payload_of position rewound
  take_lines-rewound true f c = (refl, refl)
  take_lines-rewound false f c = (refl, refl)

  must_reset-new : (f : FileState) (limit : Option ℕ) → must_reset f (new_cursor limit) ≡ false
  unfolding must_reset
  must_reset-new f limit = refl

  -- A file that was replaced, or has become shorter than what was read of it, is read as by a new
  -- cursor: the same lines from 1 on, the same state, and the chunk says that the cursor was reset.
  pub read-reset :
      (f : FileState) (c : IncrementalLineCursor)
      → must_reset f c ≡ true
      → SameButReset (read decode f c) (read decode f (new_cursor c.initial_bytes_limit))
  unfolding read truncates rewound
  read-reset f c h = rw (h, read, must_reset-new f c.initial_bytes_limit) (take_lines-rewound _ f c)
