-- ===== src/Documents/RevisionCommit/Fence.antt =====
-- The fence of backend/app/documents/revision_commit.py: which save may commit, and what a commit
-- leaves for the next one.
use fillable.Common.{ℕ, ◌+◌, ◌≡◌, ◌<◌, false, some, arith, ok}
use fillable.Documents.Schema.{Db, Resource}
use fillable.Documents.Session.{SessionState, active_user, resource}
use fillable.Documents.RevisionCommit.{SaveRequest, holder}
use fillable.Documents.Leases.{LeaseRequest, LeaseInfo, change, is_release, lease_seconds}
use fillable.Documents.Leases.Exclusion.{change-grants}

-- Two editors that both pass the fence of a document on the same database, each at any time, have
-- the same session, tab, lease and revision.
pub holder_unique :
    (now later identity : ℕ) (state state' : SessionState) (request request' : SaveRequest)
    (db db' db'' : Db) (d d' : Resource)
    → holder now state identity request db ≡ ok (d, db')
    → holder later state' identity request' db ≡ ok (d', db'')
    → (state.token_hash ≡ state'.token_hash)
      × (request.client_id ≡ request'.client_id)
      × (request.lease_id ≡ request'.lease_id)
      × (request.source_version_id ≡ request'.source_version_id)
unfolding holder active_user resource
holder_unique now later identity state state' request request' db db' db'' d d' h h' = ground arith

-- When an acquisition or a renewal has answered with a lease, the fence `holder` accepts that
-- lease, at the revision of the request, less than a minute after it, if the session still
-- authenticates then.
pub change-holder :
    (now later fresh owner identity token : ℕ) (state : SessionState) (request : LeaseRequest)
    (db db' : Db) (info : LeaseInfo)
    → state.user ≡ some owner
    → is_release request.action ≡ false
    → change now fresh state identity request db ≡ ok (info, db')
    → info.lease_id ≡ some token
    → active_user later state db' ≡ ok (owner, db')
    → later < now + lease_seconds
    → (document : Resource) × (holder later state identity
          (record {
            source_version_id = request.source_version_id;
            client_id = request.client_id;
            lease_id = token;
          })
          db'
        ≡ ok (document, db'))
unfolding holder
change-holder now later fresh owner identity token state request db db' info u r h t a soon =
    let (own, left, named, document, there, current) =
      change-grants now fresh owner identity state request db db' info u r h in
    let same : own ≡ token = ground (arith, named, t) in
    (document, ground (arith, left, same, a, there, current, soon))
