-- ===== src/Downloads/Status.antt =====
-- The states of a torrent in the client, and the statuses of the torrents in the database. A progress
-- is in thousandths. The database is the dictionary of the statuses that are set.
use anime_manager.Base.{
  ℕ, Bool, true, false, ◌||◌, not, List, [], ◌∷◌, Option, none, some, leb, ltb, if◌then◌else◌, map,
}
use anime_manager.Base.Dict.{Dict, lookup, insert, remove, member, ◌==◌, nat_eq}
use anime_manager.Base.Text.{Text, codes, text_eq, strip, lower}

pub data Category : Type 0 where
  active : Category
  seeding : Category
  completed : Category
  error : Category
  other : Category

underscore : ℕ → ℕ
underscore c = if c == 32 then b'_' else c

-- (state or "").strip().lower().replace(" ", "_")
unfoldable pub token_of : Text → Text
unfolding underscore
token_of state = map underscore (lower (strip state))

abbrev pub active_states : List Text
active_states =
    codes "downloading"
    ∷ codes "downloading_metadata"
    ∷ codes "metadl"
    ∷ codes "queueddl"
    ∷ codes "stalleddl"
    ∷ codes "forceddl"
    ∷ codes "checkingdl"
    ∷ codes "checking"
    ∷ codes "checking_files"
    ∷ codes "checking_resume"
    ∷ codes "checking_resume_data"
    ∷ codes "allocating"
    ∷ codes "queued"
    ∷ codes "queued_for_checking"
    ∷ codes "pauseddl"
    ∷ []

abbrev pub seeding_states : List Text
seeding_states =
    codes "seeding"
    ∷ codes "uploading"
    ∷ codes "stalledup"
    ∷ codes "queuedup"
    ∷ codes "forcedup"
    ∷ codes "checkingup"
    ∷ []

abbrev pub completed_states : List Text
completed_states = codes "finished" ∷ codes "pausedup" ∷ codes "complete" ∷ codes "completed" ∷ []

abbrev pub error_states : List Text
error_states = codes "error" ∷ codes "missingfiles" ∷ []

by_progress : Option ℕ → Category
by_progress none = other
by_progress (some p) = if leb 999 p then completed else if ltb 0 p then active else other

unfoldable pub normalise_category : Text → Option ℕ → Category
unfolding by_progress
normalise_category state progress =
    let token = token_of state in
    if member token active_states
    then active
    else if member token seeding_states
    then seeding
    else if member token completed_states
    then completed
    else if member token error_states
    then error
    else by_progress progress

whole : Option ℕ → Bool
whole none = false
whole (some p) = leb 999 p

unfoldable pub is_live_complete : Text → Option ℕ → Bool
unfolding whole
is_live_complete state progress =
    let token = token_of state in
    member token completed_states || member token seeding_states || whole progress

unfoldable pub status_is : Text → Option Text → Bool
status_is s none = false
status_is s (some t) = lower t == s

-- The comparison of `duplicate_download_reason`, which also strips the status.
unfoldable pub stripped_status_is : Text → Option Text → Bool
stripped_status_is s none = false
stripped_status_is s (some t) = lower (strip t) == s

unfoldable pub maybe_mark_torrent_complete :
    Text → Text → Option ℕ → Dict Text Text → Dict Text Text
unfolding status_is
maybe_mark_torrent_complete [] state progress db = db
maybe_mark_torrent_complete (c ∷ s) state progress db =
    let current = lookup (c ∷ s) db in
    if not (is_live_complete state progress)
    then db
    else if status_is (codes "complete") current || status_is (codes "deleted") current
    then db
    else insert (c ∷ s) (codes "complete") db

-- The statuses, and whether a `deleted` was cleared.
unfoldable pub clear_deleted_status : Text → Dict Text Text → Dict Text Text × Bool
unfolding status_is
clear_deleted_status [] db = (db, false)
clear_deleted_status (c ∷ s) db =
    if status_is (codes "deleted") (lookup (c ∷ s) db)
    then (remove (c ∷ s) db, true)
    else (db, false)
