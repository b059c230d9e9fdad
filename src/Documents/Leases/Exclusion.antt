-- ===== src/Documents/Leases/Exclusion.antt =====
-- Who may edit: what `change` of backend/app/documents/leases.py does to a lease in force.
use fillable.Common.{
  ℕ, ◌≡◌, refl, true, false, not, ◌&&◌, none, some, List, arith, ok, if◌then◌else◌, Option-cases,
  inl, inr,
}
use fillable.Common.Table.{find, find-update}
use fillable.Documents.Schema.{Db, resource_key, Lease, Resource, lease_key}
use fillable.Documents.Session.{SessionState, active_user, resource}
use fillable.Documents.Rows.{is_visible, find-delete}
use fillable.Documents.Leases.{
  LeaseRequest, LeaseInfo, LeaseAction, change, take_row, in_force, is_same, is_generation,
  is_release, lease_row, write_lease, token_of, granted,
}

-- While a lease of the document is in force for its owner and belongs to another session or tab
-- than the caller's, a request of any kind that succeeds leaves every lease as it was.
pub change-excludes :
    (now fresh owner identity : ℕ) (state : SessionState) (request : LeaseRequest) (db db' : Db)
    (info : LeaseInfo)
    → state.user ≡ some owner
    → in_force now owner db (find lease_key identity db.leases) ≡ true
    → is_same state request (find lease_key identity db.leases) ≡ false
    → change now fresh state identity request db ≡ ok (info, db')
    → db'.leases ≡ db.leases
unfolding change take_row active_user resource
change-excludes now fresh owner identity state request db db' info u live other h = ground arith

-- The row that an acquisition or a renewal leaves.
pub write_lease-find :
    (identity : ℕ) (l : Lease) (rows : List Lease)
    → l.document_id ≡ identity
    → find lease_key identity (write_lease (find lease_key identity rows) l rows) ≡ some l
write_lease-find identity l rows e = elim (Option-cases (find lease_key identity rows)) [
  | inl q ↦ rw q (ground (arith, e))
  | inr (r, q) ↦
      rw q (ground (arith, e, find-update lease_key identity identity (λ _. l) rows (λ _ _. e)))
]

-- An acquisition or a renewal that succeeds leaves the lease of the document with the caller's
-- session and tab, at the revision that is the document's current one, for one minute, under the
-- identity that the answer names.
pub change-grants :
    (now fresh owner identity : ℕ) (state : SessionState) (request : LeaseRequest) (db db' : Db)
    (info : LeaseInfo)
    → state.user ≡ some owner
    → is_release request.action ≡ false
    → change now fresh state identity request db ≡ ok (info, db')
    → (token : ℕ) × (find lease_key identity db'.leases
        ≡ some (lease_row now owner identity state request token))
      × (info.lease_id ≡ some token)
      × (document : Resource) × (resource owner identity db' ≡ ok (document, db'))
      × (document.current_version_id ≡ request.source_version_id)
unfolding change take_row active_user resource
change-grants now fresh owner identity state request db db' info u r h =
    elim (Option-cases (find resource_key identity db.resources)) [
      | inl missing ↦ absurd (ground arith)
      | inr (document, found) ↦
          let row = find lease_key identity db.leases in
          let token =
            token_of (in_force now owner db row && is_same state request row) request fresh row in
          let l = lease_row now owner identity state request token in
          let left : db'.leases ≡ write_lease row l db.leases = ground arith in
          (
            token,
            ground (arith, left, write_lease-find identity l db.leases refl),
            ground arith,
            document,
            ground arith,
            ground arith,
          )
    ]

-- A release that succeeds ends the lease of the document if the request names the caller's own
-- lease and its revision, and leaves every lease as it was otherwise.
pub change-releases :
    (now fresh owner identity : ℕ) (state : SessionState) (request : LeaseRequest) (db db' : Db)
    (info : LeaseInfo)
    → is_release request.action ≡ true
    → change now fresh state identity request db ≡ ok (info, db')
    → if is_generation state request (find lease_key identity db.leases)
      then find lease_key identity db'.leases ≡ none
      else db'.leases ≡ db.leases
unfolding change active_user resource
change-releases now fresh owner identity state request db db' info r h =
    ground (arith, find-delete lease_key identity db.leases)

-- An acquisition of a visible document's current revision by its signed-in owner succeeds unless a
-- lease is in force that belongs to another session or tab.
pub change-available :
    (now fresh owner identity : ℕ) (state : SessionState) (request : LeaseRequest) (db : Db)
    (document : Resource)
    → state.user ≡ some owner
    → active_user now state db ≡ ok (owner, db)
    → resource owner identity db ≡ ok (document, db)
    → document.current_version_id ≡ request.source_version_id
    → is_visible db owner identity ≡ true
    → request.action ≡ LeaseAction.acquire
    → (in_force now owner db (find lease_key identity db.leases)
        && not (is_same state request (find lease_key identity db.leases)))
      ≡ false
    → (info : LeaseInfo) × (db' : Db) × (change now fresh state identity request db
        ≡ ok (info, db'))
unfolding change take_row
change-available now fresh owner identity state request db document u a r c v q free =
    let row = find lease_key identity db.leases in
    let token =
      token_of (in_force now owner db row && is_same state request row) request fresh row in
    let l = lease_row now owner identity state request token in
    (granted now request token, record db { leases = write_lease row l db.leases }, ground arith)
