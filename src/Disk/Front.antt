-- ===== src/Disk/Front.antt =====
-- `TruncateFront` of disk/log.go: whole sealed segments leave at the front. Removing their files
-- succeeds.
pub mod Truncation
pub mod Restart
pub mod Runs
use figwal.Common.{ℕ, Bool, true, false, List, [], ◌∷◌, ltb, if◌then◌else◌}
use figwal.Disk.State.{SealedSeg, Log}

-- The loop: the segments that do not end before the index stay.
unfoldable pub kept : ℕ → List SealedSeg → List SealedSeg
kept before [] = []
kept before (ss ∷ rest) =
    let later = kept before rest in if ltb ss.last before then later else ss ∷ later

unfoldable pub truncate_front : Log → ℕ → Log
truncate_front l before = record l { sealed = kept before l.sealed }
