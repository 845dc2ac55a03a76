-- ===== src/Jsonrpc/Client/Batch.antt =====
-- A batch on the wire.
use truenas_ros_utils.Prelude.{
  ℕ, ◌≡◌, refl, ap, ◌∙◌, arith, List, [], ◌∷◌, ◌++◌, append_assoc, map, some, none, length,
}
use truenas_ros_utils.Jsonrpc.Frame.{complete, frame}
use truenas_ros_utils.Jsonrpc.Frame.Nested.{
  Piece, plain, group, Pieces, no_more, next, bytes, all_bytes, frame-group,
}
use truenas_ros_utils.Jsonrpc.Client.{batch_of, more_objects}

comma : Piece
comma = plain 0x2c refl refl refl

-- The pieces of a batch between its brackets.
more_pieces : List Piece → Pieces
more_pieces [] = no_more
more_pieces (p ∷ ps) = next comma (next p (more_pieces ps))

all_bytes-more_pieces : (ps : List Piece) → all_bytes (more_pieces ps) ≡ more_objects (map bytes ps)
unfolding comma more_pieces
all_bytes-more_pieces [] = refl
all_bytes-more_pieces (p ∷ ps) = ap (λ l. 0x2c ∷ (bytes p ++ l)) (all_bytes-more_pieces ps)

-- A batch of messages, with anything behind it on the stream, is found whole, and no batch is
-- built of nothing.
pub frame-batch_of :
    (p : Piece) (ps : List Piece) (rest : List ℕ)
    → (batch_of [] ≡ none)
      × ((out : List ℕ) × (batch_of (bytes p ∷ map bytes ps) ≡ some out)
          × (frame (out ++ rest) ≡ complete (length out)))
unfolding batch_of
frame-batch_of p ps rest = (
  refl,
  (
    bytes (group 0x5b 0x5d refl refl (next p (more_pieces ps))),
    rw (all_bytes-more_pieces ps, append_assoc) refl,
    frame-group [] 0x5b 0x5d (next p (more_pieces ps)) rest tt refl refl
        ∙ ap complete (omega arith),
  ),
)
