-- ===== src/Jsonrpc/Frame/Nested.antt =====
-- Messages as nested brackets and strings, and that `frame` finds their end.
use truenas_ros_utils.Prelude.{
  ℕ, suc, ◌+◌, true, false, List, [], ◌∷◌, ◌++◌, ◌≡◌, refl, sym, ap, ◌∙◌, length, append_assoc,
  arith, ◌==◌, All, length-append,
}
use native.Mathlib.Nat.{add-zero}
use truenas_ros_utils.Jsonrpc.Frame.{
  complete, Scan, is_ws, scan, scan_from, frame, is_opener, is_closer, quote, backslash,
}
use truenas_ros_utils.Jsonrpc.Frame.Stable.{seek, frame-seek}

-- A character of a string: one that is no quote and no backslash, or any one behind a backslash.
pub data StringChar : Type 0 where
  unescaped : (byte : ℕ) → (byte == quote) ≡ false → (byte == backslash) ≡ false → StringChar
  behind_backslash : ℕ → StringChar

abbrev pub string_bytes : List StringChar → List ℕ
string_bytes [] = quote ∷ []
string_bytes (unescaped byte q e ∷ cs) = byte ∷ string_bytes cs
string_bytes (behind_backslash byte ∷ cs) = backslash ∷ byte ∷ string_bytes cs

-- An Object or an Array, any brace or bracket with any other, as `frame` leaves it to the parser.
mutual
  pub data Piece : Type 0 where
    -- A byte that is no bracket, no brace and no quote.
    plain :
        (byte : ℕ)
        → (byte == quote) ≡ false
        → is_opener byte ≡ false
        → is_closer byte ≡ false
        → Piece
    text : List StringChar → Piece
    group : (opener closer : ℕ) → is_opener opener ≡ true → is_closer closer ≡ true → Pieces → Piece

  pub data Pieces : Type 0 where
    no_more : Pieces
    next : Piece → Pieces → Pieces

abbrev mutual
  pub bytes : Piece → List ℕ
  bytes (plain byte q o c) = byte ∷ []
  bytes (text cs) = quote ∷ string_bytes cs
  bytes (group opener closer o c ps) = opener ∷ (all_bytes ps ++ closer ∷ [])

  pub all_bytes : Pieces → List ℕ
  all_bytes no_more = []
  all_bytes (next p ps) = bytes p ++ all_bytes ps

abbrev outside : ℕ → Scan
outside depth = record { depth = depth; in_string = false; escaped = false }

abbrev inside : ℕ → Scan
inside depth = record { depth = depth; in_string = true; escaped = false }

-- A string is skipped, whatever it holds.
scan-string :
    (cs : List StringChar) (rest : List ℕ) (at depth : ℕ)
    → scan (string_bytes cs ++ rest) at (inside depth)
      ≡ scan rest (at + length (string_bytes cs)) (outside depth)
unfolding scan
scan-string [] rest at depth = refl
scan-string (unescaped byte q e ∷ cs) rest at depth =
    ground (arith, scan-string cs rest (at + 1) depth)
scan-string (behind_backslash byte ∷ cs) rest at depth =
    ground (arith, scan-string cs rest (at + 1 + 1) depth)

scan-opener :
    (opener : ℕ) (l : List ℕ) (at depth : ℕ)
    → is_opener opener ≡ true
    → scan (opener ∷ l) at (outside depth) ≡ scan l (at + 1) (outside (suc depth))
unfolding scan
scan-opener opener l at depth h = ground arith

scan-closer :
    (closer : ℕ) (l : List ℕ) (at depth : ℕ)
    → is_closer closer ≡ true
    → scan (closer ∷ l) at (outside (suc (suc depth))) ≡ scan l (at + 1) (outside (suc depth))
unfolding scan
scan-closer closer l at depth h = ground arith

scan-last :
    (closer : ℕ) (l : List ℕ) (at : ℕ)
    → is_closer closer ≡ true
    → scan (closer ∷ l) at (outside 1) ≡ complete (at + 1)
unfolding scan
scan-last closer l at h = ground arith

-- A piece inside a message is skipped, and the depth is as before.
mutual
  unfolding scan

  scan-piece :
      (p : Piece) (rest : List ℕ) (at depth : ℕ)
      → scan (bytes p ++ rest) at (outside (suc depth))
        ≡ scan rest (at + length (bytes p)) (outside (suc depth))
  scan-piece (plain byte q o c) rest at depth = ground arith
  scan-piece (text cs) rest at depth = ground (arith, scan-string cs rest (at + 1) (suc depth))
  scan-piece (group opener closer o c ps) rest at depth =
      let inner = length (all_bytes ps) in
      scan-opener opener _ at (suc depth) o
      ∙ ap (λ l. scan l (at + 1) (outside (suc (suc depth))))
          (append_assoc (all_bytes ps) (closer ∷ []) rest)
      ∙ scan-pieces ps (closer ∷ rest) (at + 1) (suc depth)
      ∙ scan-closer closer rest (at + 1 + inner) depth c
      ∙ ap (λ i. scan rest i (outside (suc depth)))
          (omega (arith, length-append (all_bytes ps) (closer ∷ [])))

  scan-pieces :
      (ps : Pieces) (rest : List ℕ) (at depth : ℕ)
      → scan (all_bytes ps ++ rest) at (outside (suc depth))
        ≡ scan rest (at + length (all_bytes ps)) (outside (suc depth))
  scan-pieces no_more rest at depth =
      ap (λ i. scan rest i (outside (suc depth))) (sym (add-zero at))
  scan-pieces (next p ps) rest at depth =
      ap (λ l. scan l at (outside (suc depth))) (append_assoc (bytes p) (all_bytes ps) rest)
      ∙ scan-piece p (all_bytes ps ++ rest) at depth
      ∙ scan-pieces ps rest (at + length (bytes p)) depth
      ∙ ap (λ i. scan rest i (outside (suc depth)))
          (omega (arith, length-append (bytes p) (all_bytes ps)))

seek-ws :
    (ws l : List ℕ) (at : ℕ)
    → All (λ b. is_ws b ≡ true) ws
    → seek (ws ++ l) at ≡ seek l (at + length ws)
unfolding seek
seek-ws [] l at h = ap (seek l) (sym (add-zero at))
seek-ws (b ∷ ws) l at h = rw h.0 (seek-ws ws l (at + 1) h.1 ∙ ap (seek l) (omega arith))

seek-opener :
    (opener : ℕ) (l : List ℕ) (at : ℕ)
    → is_opener opener ≡ true
    → seek (opener ∷ l) at ≡ scan l (at + 1) (outside 1)
unfolding seek scan_from is_ws
seek-opener opener l at h = ground (arith, scan-opener opener l at 0)

-- A message, with whitespace before it and anything behind it, is found whole: brackets and braces
-- nested to any depth, and strings that hold any bytes, quotes and backslashes escaped.
pub frame-group :
    (ws : List ℕ) (opener closer : ℕ) (ps : Pieces) (rest : List ℕ)
    → All (λ b. is_ws b ≡ true) ws
    → (o : is_opener opener ≡ true) → (c : is_closer closer ≡ true)
    → frame (ws ++ (bytes (group opener closer o c ps) ++ rest))
      ≡ complete (length ws + length (bytes (group opener closer o c ps)))
frame-group ws opener closer ps rest h o c =
    let at = length ws in
    frame-seek (ws ++ (bytes (group opener closer o c ps) ++ rest))
    ∙ seek-ws ws _ 0 h
    ∙ seek-opener opener _ (0 + at) o
    ∙ ap (λ l. scan l (0 + at + 1) (outside 1)) (append_assoc (all_bytes ps) (closer ∷ []) rest)
    ∙ scan-pieces ps (closer ∷ rest) (0 + at + 1) 0
    ∙ scan-last closer rest (0 + at + 1 + length (all_bytes ps)) c
    ∙ ap complete (omega (arith, length-append (all_bytes ps) (closer ∷ [])))
