-- ===== src/Documents/RevisionCommit/Commit.antt =====
-- What `commit` of backend/app/documents/revision_commit.py leaves.
use fillable.Common.{
  ℕ, ◌≡◌, ◌+◌, ◌⊎◌, refl, Option, none, some, ◌∷◌, arith, ok, err, Outcome, Option-cases, inl, inr,
}
use fillable.Common.Table.{find, update, find-update}
use fillable.Documents.Schema.{
  Lease, Db, Resource, Version, Job, lease_key, resource_key, version_key,
}
use fillable.Documents.Session.{SessionState, active_user, resource}
use fillable.Documents.RevisionCommit.{
  SaveRequest, Prepared, holder, commit, insert_version, saved_version, advanced_to, moved_to,
  at_version,
}
use fillable.Jobs.Service.{intent, job_of}

Outcome-cases :
    {E A S : Type 0} (o : Outcome E (A × S))
    → ((e : E) × (o ≡ err e)) ⊎ ((a : A) × (s : S) × (o ≡ ok (a, s)))
Outcome-cases (err e) = inl (e, refl)
Outcome-cases (ok (a, s)) = inr (a, s, refl)

pub intent-keeps :
    (now fresh owner document version : ℕ) (db db' : Db) (j : Job)
    → intent now fresh owner document version db ≡ ok (j, db')
    → db' ≡ record db { jobs = db'.jobs }
unfolding intent
intent-keeps now fresh owner document version db db' j h =
    elim (Option-cases (job_of document version db.jobs)) [
      | inl q ↦ ground arith
      | inr (r, q) ↦ ground arith
    ]

holder-keeps :
    (now : ℕ) (state : SessionState) (identity : ℕ) (request : SaveRequest) (db db' : Db)
    (d : Resource)
    → holder now state identity request db ≡ ok (d, db')
    → db' ≡ db
unfolding holder active_user resource
holder-keeps now state identity request db db' d h = ground arith

module _ (now fresh version_id : ℕ) (state : SessionState) (identity : ℕ) (request : SaveRequest)
    (owner file : ℕ) (prepared : Prepared) (restored_from : Option ℕ) (db db' : Db)
    (h : commit now fresh version_id state identity request owner file prepared restored_from db
      ≡ ok (tt, db')) where
  -- The parts of a commit that succeeded.
  pub commit-parts :
      (d : Resource) × (p : Version) × (j : Job) × (holder now state identity request db
        ≡ ok (d, db))
      × (find version_key request.source_version_id db.versions ≡ some p)
      × (find version_key version_id db.versions ≡ none)
      × (intent now fresh owner identity version_id (
            advanced_to now identity version_id (record db {
              versions =
                  saved_version version_id identity owner file request prepared restored_from
                    p.number
                  ∷ db.versions;
            }))
          ≡ ok (j, db'))
  unfolding commit insert_version
  commit-parts = elim (Outcome-cases (holder now state identity request db)) [
    | inl (e, q) ↦ absurd (ground arith)
    | inr (d, s, q) ↦
        let kept : s ≡ db = holder-keeps now state identity request db s d q in
        elim (Option-cases (find version_key request.source_version_id db.versions)) [
          | inl missing ↦ absurd (ground (arith, kept))
          | inr (p, found) ↦
              let before = advanced_to now identity version_id (record db {
                versions =
                    saved_version version_id identity owner file request prepared restored_from
                      p.number
                    ∷ db.versions;
              }) in
              elim (Outcome-cases (intent now fresh owner identity version_id before)) [
                | inl (e, r) ↦ absurd (ground (arith, kept))
                | inr (j, s', r) ↦ (
                  d,
                  p,
                  j,
                  ground (arith, kept),
                  found,
                  ground (arith, kept),
                  ground (arith, kept),
                )
              ]
        ]
  ]

  -- The rows that a commit leaves.
  pub commit-rows :
      (p : Version) × (find version_key request.source_version_id db.versions ≡ some p)
      × (db'.versions
          ≡ saved_version version_id identity owner file request prepared restored_from p.number
            ∷ db.versions)
      × (db'.resources ≡ update resource_key identity (moved_to now version_id) db.resources)
      × (db'.leases ≡ update lease_key identity (at_version version_id) db.leases)
      × (db'.users ≡ db.users)
      × (db'.sessions ≡ db.sessions)
  commit-rows =
      let (d, p, j, fence, found, free, last) = commit-parts in
      let before = advanced_to now identity version_id (record db {
        versions =
            saved_version version_id identity owner file request prepared restored_from p.number
            ∷ db.versions;
      }) in
      let kept = intent-keeps now fresh owner identity version_id before db' j last in
      (
        p,
        found,
        ground (arith, kept),
        ground (arith, kept),
        ground (arith, kept),
        ground (arith, kept),
        ground (arith, kept),
      )

  -- A commit that succeeded has found the source revision and leaves one with the new identity,
  -- the next number, the source as its parent and the stored file, the document at it, and the
  -- lease, still the one of the request, at it too.
  pub commit-saves :
      (p : Version) × (v : Version) × (d' : Resource) × (l : Lease) × (find version_key
          request.source_version_id db.versions
        ≡ some p)
      × (find version_key version_id db'.versions ≡ some v)
      × (v.number ≡ p.number + 1)
      × (v.parent_version_id ≡ some request.source_version_id)
      × (v.document_id ≡ identity)
      × (v.file_id ≡ file)
      × (find resource_key identity db'.resources ≡ some d')
      × (d'.current_version_id ≡ version_id)
      × (find lease_key identity db'.leases ≡ some l)
      × (l.source_version_id ≡ version_id)
      × (l.lease_id ≡ request.lease_id)
  unfolding holder active_user resource
  commit-saves =
      let (d, q, j, fence, found', free, last) = commit-parts in
      let (p, found, versions, resources, leases, users, sessions) = commit-rows in
      let document =
        find-update resource_key identity identity (moved_to now version_id) db.resources
          (λ _ e. e) in
      let lease =
        find-update lease_key identity identity (at_version version_id) db.leases (λ _ e. e) in
      elim (Option-cases (find lease_key identity db.leases)) [
        | inl missing ↦ absurd (ground (arith, fence))
        | inr (l, held) ↦ (
          p,
          saved_version version_id identity owner file request prepared restored_from p.number,
          moved_to now version_id d,
          at_version version_id l,
          found,
          ground (arith, versions),
          ground arith,
          refl,
          refl,
          refl,
          ground (arith, fence, resources, document),
          refl,
          ground (arith, leases, lease),
          refl,
          ground (arith, fence),
        )
      ]

  -- After a commit that succeeded the same editor, with the same lease and the new version as its
  -- source, passes the fence `holder` again at the same moment.
  pub commit-keeps-holder :
      (document : Resource) × (holder now state identity
          (record request { source_version_id = version_id })
          db'
        ≡ ok (document, db'))
  unfolding holder active_user resource
  commit-keeps-holder =
      let (d, p, j, fence, found, free, last) = commit-parts in
      let (p', found', versions, resources, leases, users, sessions) = commit-rows in
      let document =
        find-update resource_key identity identity (moved_to now version_id) db.resources
          (λ _ e. e) in
      let lease =
        find-update lease_key identity identity (at_version version_id) db.leases (λ _ e. e) in
      (
        moved_to now version_id d,
        ground (arith, fence, resources, leases, users, sessions, document, lease),
      )
