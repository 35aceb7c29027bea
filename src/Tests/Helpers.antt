-- ===== src/Tests/Helpers.antt =====
-- crabclaw/utils/helpers.py at concrete inputs.
use crabclaw.Prelude.{◌≡◌, nat_eq, string_eq, pair_eq, All, arith}
use crabclaw.Prelude.Text.{codes}
use crabclaw.Helpers.{split, split_message}
use crabclaw.Helpers.Split.Bounds.{Fits, split_message-length}
use crabclaw.Helpers.Split.Content.{visible, joined, split_message-visible}

split_message-length_example : All (Fits 8) (split_message (codes "one two three\nfour") 8)
unfolding split
split_message-length_example =
    split_message-length 8 (codes "one two three\nfour")
      ((omega arith, (omega arith, (omega arith, tt))), ((omega arith, tt), tt))

split_message-visible_example :
    visible (joined (split_message (codes "one two three\nfour") 8))
    ≡ visible (codes "one two three\nfour")
split_message-visible_example = split_message-visible 8 (codes "one two three\nfour")
