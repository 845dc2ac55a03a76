-- ===== src/Jsonrpc/Response/Batch.antt =====
-- The two ways to assemble a batch, of responses and of frames, write the same bytes.
use truenas_ros_utils.Prelude.{
  ℕ, ◌≡◌, refl, sym, ap, ◌∙◌, List, [], ◌∷◌, ◌++◌, append_assoc, append-nil, map, some,
}
use truenas_ros_utils.Jsonrpc.Response.{
  Response, Writer, to_bytes, write_into, write_more, batch_frame,
}
use truenas_ros_utils.Jsonrpc.Client.{batch_of, more_objects}

module _ (writer : Writer) where
  write_more-append :
      (rs : List Response) (out : List ℕ)
      → write_more writer rs out ≡ out ++ more_objects (map (to_bytes writer) rs)
  unfolding write_more write_into to_bytes
  write_more-append [] out = sym (append-nil out)
  write_more-append (r ∷ rs) out =
      let more = more_objects (map (to_bytes writer) rs) in
      write_more-append rs (write_into writer r (out ++ (0x2c ∷ [])))
      ∙ append_assoc (out ++ (0x2c ∷ [])) (to_bytes writer r) more
      ∙ append_assoc out (0x2c ∷ []) (to_bytes writer r ++ more)

  -- The frame of a batch of responses is the batch of the frames of the responses, none for none.
  batch_frame-batch_of :
      (rs : List Response) → batch_frame writer rs ≡ batch_of (map (to_bytes writer) rs)
  unfolding batch_frame batch_of write_into to_bytes
  batch_frame-batch_of [] = refl
  batch_frame-batch_of (r ∷ rs) =
      let more = more_objects (map (to_bytes writer) rs) in
      ap some (
        ap (λ l. l ++ (0x5d ∷ [])) (write_more-append rs (write_into writer r (0x5b ∷ [])))
        ∙ append_assoc (0x5b ∷ to_bytes writer r) more (0x5d ∷ []))
