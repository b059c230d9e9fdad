-- ===== src/Documents/Examples.antt =====
-- Runs of the documents' transactions at concrete inputs (backend/app/documents/).
use fillable.Common.{◌+◌, ◌≡◌, refl, false, none, some, List, [], ◌∷◌, ok, arith, inr}
use fillable.Common.Table.{find}
use fillable.Documents.Schema.{
  Db, Resource, Version, Lease, JobStatus, lease_key, resource_key, version_key,
}
use fillable.Documents.Session.{active_user, resource}
use fillable.Documents.Rows.{is_visible, file_key}
use fillable.Documents.Leases.{change, take_row, lease_seconds, granted}
use fillable.Documents.Leases.Exclusion.{change-excludes}
use fillable.Documents.RevisionCommit.{
  holder, commit, insert_version, saved_version, moved_to, at_version,
}
use fillable.Documents.RevisionCommit.Fence.{holder_unique, change-holder}
use fillable.Documents.RevisionCommit.Commit.{commit-saves, commit-keeps-holder}
use fillable.Documents.Calls.{Call, perform, perform_all}
use fillable.Documents.Calls.Fences.{commit-once, move-fences}
use mathlib.Core.Option
use mathlib.Core.Option.{Option}
use fillable.Documents.Titles.{RenameRequest, rename, titled}
use fillable.Documents.Titles.Replay.{rename-again}
use fillable.Documents.Trash.{owned, move, restore, empty, to_trash, due_at}
use fillable.Documents.Trash.Recovery.{move-restore, empty-final}
use fillable.Documents.Deletion.{
  request_deletion, mark_row, deleted_in, is_selected, shares_original, shares_version,
}
use fillable.Documents.Deletion.Sparing.{request_deletion-spares}
use fillable.Documents.Copies.{CopyRequest, Copied, new_document, first_version}
use fillable.Jobs.Service.{intent, new_job}
use fillable.Documents.Sample.{
  state, other_state, document, other_document, other_version, lease, db, now, acquire_request,
  other_release, save_request, prepared, released_info,
}

change-excludes_example : db.leases ≡ db.leases
unfolding change active_user resource
change-excludes_example =
    change-excludes now 52 7 1 other_state other_release db db released_info refl refl refl refl

abbrev renewed : Db
renewed = record db { leases = record lease { expires_at = now + lease_seconds } ∷ [] }

renewed_lem :
    change now 52 state 1 acquire_request db ≡ ok (granted now acquire_request 51, renewed)
unfolding change take_row active_user resource is_visible
renewed_lem = refl

change-holder_example :
    (d : Resource) × (holder
        (now + 59)
        state
        1
        (record { source_version_id = 10; client_id = 41; lease_id = 51 })
        renewed
      ≡ ok (d, renewed))
unfolding active_user
change-holder_example =
    change-holder now (now + 59) 52 7 1 51 state acquire_request db renewed
      (granted now acquire_request 51) refl refl renewed_lem refl refl (omega arith)

held_lem : holder now state 1 save_request db ≡ ok (document, db)
unfolding holder active_user resource
held_lem = refl

holder_unique_example :
    (state.token_hash ≡ state.token_hash)
    × (save_request.client_id ≡ save_request.client_id)
    × (save_request.lease_id ≡ save_request.lease_id)
    × (save_request.source_version_id ≡ save_request.source_version_id)
holder_unique_example =
    holder_unique now now 1 state state save_request save_request db db db document document
      held_lem held_lem

abbrev saved : Db
saved = record db {
  versions = saved_version 11 1 7 101 save_request prepared none 1 ∷ db.versions;
  resources = moved_to now 11 document ∷ other_document ∷ [];
  leases = at_version 11 lease ∷ [];
  jobs =
      new_job now 62 7 1 11
      ∷ record (new_job 0 61 7 1 10) { status = JobStatus.stale; updated_at = now }
      ∷ [];
}

saved_lem : commit now 62 11 state 1 save_request 7 101 prepared none db ≡ ok (tt, saved)
unfolding commit insert_version holder active_user resource intent
saved_lem = refl

commit-saves_example :
    (p : Version) × (v : Version) × (d : Resource) × (l : Lease) × (find version_key 10 db.versions
      ≡ some p)
    × (find version_key 11 saved.versions ≡ some v)
    × (v.number ≡ p.number + 1)
    × (v.parent_version_id ≡ some 10)
    × (v.document_id ≡ 1)
    × (v.file_id ≡ 101)
    × (find resource_key 1 saved.resources ≡ some d)
    × (d.current_version_id ≡ 11)
    × (find lease_key 1 saved.leases ≡ some l)
    × (l.source_version_id ≡ 11)
    × (l.lease_id ≡ 51)
commit-saves_example =
    commit-saves now 62 11 state 1 save_request 7 101 prepared none db saved saved_lem

commit-keeps-holder_example :
    (d : Resource) × (holder now state 1 (record save_request { source_version_id = 11 }) saved
      ≡ ok (d, saved))
commit-keeps-holder_example =
    commit-keeps-holder now 62 11 state 1 save_request 7 101 prepared none db saved saved_lem

-- The next revision is saved, the title changes and the trash is emptied.
abbrev later_calls : List Call
later_calls =
    Call.saves (now + 1) 63 12 state 1 (record save_request { source_version_id = 11 }) 7 102
      prepared none
    ∷ Call.renames (now + 1) state 1
        (record { source_version_id = 12; title = "Contract"; previous_title = "Letter" })
    ∷ Call.empties (now + 2) state
    ∷ []

saved_again :
    Option.map
      (λ (r : Resource). r.current_version_id)
      (find resource_key 1 (perform_all later_calls saved).resources)
    ≡ some 12
unfolding perform_all perform commit insert_version holder active_user resource intent rename
    is_visible empty
saved_again = refl

commit-once_example :
    ¬ (holder (now + 3) state 1 save_request (perform_all later_calls saved) ≡ ok (document, db))
commit-once_example =
    commit-once now 62 11 state 1 save_request 7 101 prepared none db saved later_calls (now + 3)
      state save_request document db saved_lem refl

abbrev title_request : RenameRequest
title_request = record { source_version_id = 10; title = "Contract"; previous_title = "Letter" }

abbrev renamed : Db
renamed = record db { resources = titled now "Contract" document ∷ other_document ∷ [] }

rename-again_example :
    ((titled now "Contract" document).title ≡ "Contract")
    × (rename (now + 5) state 1 title_request renamed
        ≡ ok (titled now "Contract" document, renamed))
unfolding rename active_user resource is_visible
rename-again_example =
    rename-again now (now + 5) 7 1 state title_request db renamed (titled now "Contract" document)
      refl refl

abbrev trashed : Db
trashed = record db { resources = to_trash now document ∷ other_document ∷ []; leases = [] }

trashed_lem : move now state 1 db ≡ ok (tt, trashed)
unfolding move owned active_user
trashed_lem = refl

-- The document is restored, and its title changes.
abbrev restoring_calls : List Call
restoring_calls =
    Call.restores (now + 1) state 1
    ∷ Call.renames (now + 1) state 1
        (record { source_version_id = 10; title = "Contract"; previous_title = "Letter" })
    ∷ []

move-fences_example : ¬ (
    holder (now + 3) state 1 save_request (perform_all restoring_calls trashed) ≡ ok (document, db))
move-fences_example =
    move-fences now 1 state db trashed document restoring_calls (now + 3) state save_request
      document db refl refl trashed_lem (inr (refl, (refl, tt)))

move-restore_example :
    (db' : Db) × (restore (now + 3) state 1 trashed ≡ ok (tt, db'))
    × (find resource_key 1 db'.resources ≡ some document)
unfolding active_user
move-restore_example =
    move-restore now (now + 3) 7 1 state db trashed document refl refl refl refl trashed_lem refl
      (omega arith)

abbrev emptied : Db
emptied = record trashed { resources = due_at now (to_trash now document) ∷ other_document ∷ [] }

empty-final_example : ¬ (restore (now + 3) state 1 emptied ≡ ok (tt, db))
unfolding empty active_user
empty-final_example =
    empty-final now (now + 3) 1 state state trashed emptied db (to_trash now document) refl refl
      refl refl (omega arith)

gone_lem : request_deletion now 7 1 (some state) false db ≡ ok (tt, deleted_in 7 1 100 db)
unfolding request_deletion mark_row deleted_in is_selected shares_original shares_version
    active_user
gone_lem = refl

request_deletion-spares_example :
    find file_key 200 (deleted_in 7 1 100 db).storage.files ≡ find file_key 200 db.storage.files
request_deletion-spares_example =
    request_deletion-spares now 7 1 200 (some state) false db (deleted_in 7 1 100 db) document refl
      (inr (20, other_version, refl, (λ e. omega (arith, e)), refl)) gone_lem

abbrev copy_request : CopyRequest
copy_request = record { source_version_id = 10; title = "Copy" }

abbrev copied : Copied
copied = record { document = 5; review = none; unsupported = 0; original_filename = "letter.docx" }

abbrev copied_db : Db
copied_db = record db {
  resources = new_document now 3 7 300 30 "Copy" "letter.docx" ∷ db.resources;
  versions = first_version 30 3 7 300 copied ∷ db.versions;
  jobs = new_job now 62 7 3 30 ∷ db.jobs;
}
