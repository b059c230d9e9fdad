-- ===== src/Documents/RevisionCommit.antt =====
-- `holder` and `commit` of backend/app/documents/revision_commit.py: the fence and the transaction
-- that a save and a restore share. The identity that `uuid5` derives from the stored file is the
-- argument `version_id`; the result of the storage service is its file.
pub mod Fence
pub mod Processing
pub mod Commit
use fillable.Common.{
  ℕ, ◌+◌, Bool, true, false, not, ◌&&◌, ◌||◌, Option, none, some, List, [], ◌∷◌, ◌==◌, leb,
  eq_option, is_some, if◌then◌else◌, ◌>>=◌, ◌>>◌, pure, gets, or_raise, raise_if, modify,
}
use fillable.Common.Table.{find, update}
use fillable.Documents.Schema.{
  Db, Lease, Version, Resource, Job, version_key, lease_key, resource_key, revision_conflict,
  not_found, lease_lost, no_result, integrity,
}
use fillable.Documents.Session.{Action, SessionState, active_user, resource}
use fillable.Documents.Rows.{update_where, is_ready, file_key}
use fillable.Jobs.Service.{is_pending, intent}
use fillable.Jobs.Worker.{staled}

-- The part of a `SaveRequest` and of a `RestoreRequest` that the fence reads.
pub record SaveRequest : Type 0 where
  pub source_version_id : ℕ
  pub client_id : ℕ
  pub lease_id : ℕ

abbrev pub holds : ℕ → SessionState → SaveRequest → Option Lease → Bool
holds now state request none = false
holds now state request (some l) =
    not (leb l.expires_at now)
    && l.source_version_id == request.source_version_id
    && l.session_hash == state.token_hash
    && l.client_id == request.client_id
    && l.lease_id == request.lease_id

unfoldable pub holder : ℕ → SessionState → ℕ → SaveRequest → Action Resource
holder now state identity request = do
  owner ← active_user now state
  document ← resource owner identity
  raise_if (not (document.current_version_id == request.source_version_id)) revision_conflict
  lease ← gets (λ db. find lease_key identity db.leases)
  raise_if (not (holds now state request lease)) lease_lost
  pure document

-- What `prepare` made of the request; `selected_file` is read for a restore only.
pub record Prepared : Type 0 where
  pub document : ℕ
  pub review : Option ℕ
  pub unsupported : ℕ
  pub selected_file : Option ℕ

abbrev selected_version : ℕ → ℕ → Db → Option Version → Option ℕ
selected_version identity owner db none = none
selected_version identity owner db (some v) =
    if v.document_id == identity && v.owner_id == owner
    then elim (find file_key v.file_id db.storage.files) [
      | none ↦ none
      | some f ↦ if is_ready f.state then some v.file_id else none
    ]
    else none

abbrev pub selection_fails : ℕ → ℕ → Prepared → Option ℕ → Db → Bool
selection_fails identity owner prepared none db = false
selection_fails identity owner prepared (some version) db =
    elim (selected_version identity owner db (find version_key version db.versions)) [
      | none ↦ true
      | some file ↦ not (eq_option (some file) prepared.selected_file)
    ]

abbrev has_number : ℕ → ℕ → List Version → Bool
has_number document number [] = false
has_number document number (v ∷ vs) =
    v.document_id == document && v.number == number || has_number document number vs

abbrev pub saved_version : ℕ → ℕ → ℕ → ℕ → SaveRequest → Prepared → Option ℕ → ℕ → Version
saved_version version_id identity owner file request prepared restored_from previous = record {
  id = version_id;
  document_id = identity;
  owner_id = owner;
  file_id = file;
  parent_version_id = some request.source_version_id;
  restored_from_version_id = restored_from;
  number = previous + 1;
  document_model = some prepared.document;
  field_review = prepared.review;
  unsupported_count = prepared.unsupported;
}

-- INSERT under the primary key and the UNIQUE number of a document's version.
unfoldable pub insert_version : Version → Action Unit
insert_version v = do
  taken ← gets (λ db.
      is_some (find version_key v.id db.versions) || has_number v.document_id v.number db.versions)
  raise_if taken integrity
  modify (λ db. record db { versions = v ∷ db.versions })

abbrev pub is_pending_of : ℕ → Job → Bool
is_pending_of document j = j.document_id == document && is_pending j.status

abbrev pub moved_to : ℕ → ℕ → Resource → Resource
moved_to now version r = record r { current_version_id = version; updated_at = now }

abbrev pub at_version : ℕ → Lease → Lease
at_version version l = record l { source_version_id = version }

-- The three updates between the new version and its job.
abbrev pub advanced_to : ℕ → ℕ → ℕ → Db → Db
advanced_to now identity version db = record db {
  resources = update resource_key identity (moved_to now version) db.resources;
  leases = update lease_key identity (at_version version) db.leases;
  jobs = update_where (is_pending_of identity) (staled now) db.jobs;
}

unfoldable pub commit :
    ℕ → ℕ → ℕ → SessionState → ℕ → SaveRequest → ℕ → ℕ → Prepared → Option ℕ → Action Unit
commit now fresh version_id state identity request owner file prepared restored_from = do
  _ ← holder now state identity request
  fails ← gets (selection_fails identity owner prepared restored_from)
  raise_if fails not_found
  previous ←
      or_raise (← gets (λ db. find version_key request.source_version_id db.versions)) no_result
  insert_version
      (saved_version version_id identity owner file request prepared restored_from previous.number)
  modify (advanced_to now identity version_id)
  _ ← intent now fresh owner identity version_id
  pure tt
