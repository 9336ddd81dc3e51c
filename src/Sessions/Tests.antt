-- ===== src/Sessions/Tests.antt =====
-- Three session files after a hundred days, one of them in use.
use Prim.Native.String.{String}
use mathlib.Core.List.{Permᴰ}
use tobs.Sessions.Newest.{readable, NewestFirst}
use tobs.Prelude.{◌+◌, ◌≡◌, refl, true, false, some, List, [], ◌∷◌, take, length, All}
use tobs.Sessions.{Found, SessionGc, Unlink, unlinked, scan_sessions, cleanup}
use tobs.Sessions.Kept.{MayGo, cleanup-keeps}

abbrev gc : SessionGc
gc = record { max_age_days = 30; keep_last_n = 1; active_session_name = some "main" }

abbrev files : List Found
files =
    record { stem = "main"; mtime = some 5 }
    ∷ record { stem = "old"; mtime = some 7 }
    ∷ record { stem = "new"; mtime = some 8_000_000 }
    ∷ []

abbrev unlink : String → Unlink
unlink stem = unlinked

cleanup-test :
    (cleanup gc 8_640_000 false unlink files).removed ≡ record { stem = "old"; mtime = 7 } ∷ []
unfolding cleanup
cleanup-test = refl

cleanup-keeps_example :
    All (MayGo gc 8_640_000 false unlink) (cleanup gc 8_640_000 false unlink files).removed
    × Permᴰ (readable files) (scan_sessions files)
    × NewestFirst (scan_sessions files)
    × (take 1 (cleanup gc 8_640_000 false unlink files).kept ≡ take 1 (scan_sessions files))
    × (length (cleanup gc 8_640_000 false unlink files).kept
          + length (cleanup gc 8_640_000 false unlink files).removed
        ≡ length (scan_sessions files))
    × (false ≡ false
        → (cleanup gc 8_640_000 false unlink files).files_removed
          ≡ length (cleanup gc 8_640_000 false unlink files).removed)
    × (false ≡ true → (cleanup gc 8_640_000 false unlink files).kept ≡ scan_sessions files)
cleanup-keeps_example = cleanup-keeps gc 8_640_000 false unlink files
