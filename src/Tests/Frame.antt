-- ===== src/Tests/Frame.antt =====
-- truenas_jsonrpc, `frame`: a message with nested brackets, and a brace in a string.
use truenas_ros_utils.Prelude.{ℕ, ◌≤◌, ◌<◌, true, [], ◌∷◌, ◌++◌, ◌≡◌, refl, take, All}
use truenas_ros_utils.Jsonrpc.Frame.{complete, incomplete, invalid, frame, is_ws}
use truenas_ros_utils.Jsonrpc.Frame.Stable.{frame_complete, frame_invalid}
use truenas_ros_utils.Jsonrpc.Frame.Nested.{
  unescaped, behind_backslash, Pieces, plain, text, group, no_more, next, bytes, frame-group,
}

-- `["}\"", {}]`
abbrev body : Pieces
body =
    next (text (unescaped 0x7d refl refl ∷ behind_backslash 0x22 ∷ []))
      (next (plain 0x2c refl refl refl) (next (group 0x7b 0x7d refl refl no_more) no_more))

space_is_ws : All (λ b. is_ws b ≡ true) (32 ∷ [])
unfolding is_ws
space_is_ws = (refl, tt)

frame-group_example :
    frame ((32 ∷ []) ++ (bytes (group 0x5b 0x5d refl refl body) ++ 0x7b ∷ [])) ≡ complete 11
frame-group_example = frame-group (32 ∷ []) 0x5b 0x5d body (0x7b ∷ []) space_is_ws refl refl

two_bytes : frame (0x7b ∷ 0x7d ∷ []) ≡ complete 2
unfolding frame
two_bytes = refl

frame_complete_example :
    (0 < 2)
    × (2 ≤ 2)
    × (frame (0x7b ∷ 0x7d ∷ 0x5b ∷ []) ≡ complete 2)
    × ((k : ℕ) → k < 2 → frame (take k (0x7b ∷ 0x7d ∷ [])) ≡ incomplete)
frame_complete_example = frame_complete (0x7b ∷ 0x7d ∷ []) (0x5b ∷ []) 2 two_bytes

digit_is_invalid : frame (0x31 ∷ []) ≡ invalid
unfolding frame
digit_is_invalid = refl

frame_invalid_example : frame (0x31 ∷ 0x7b ∷ []) ≡ invalid
frame_invalid_example = frame_invalid (0x31 ∷ []) (0x7b ∷ []) digit_is_invalid
