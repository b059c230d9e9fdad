-- ===== src/Documents/Calls/Fences.antt =====
-- What the fence of a save (backend/app/documents/revision_commit.py) refuses for good, over runs of the
-- documents' transactions.
use fillable.Common.{
  ℕ, ◌≡◌, ◌≢◌, ◌⊎◌, ◌∙◌, refl, true, false, Option, none, some, List, [], ◌∷◌, All, arith, ok, inl,
  inr,
}
use fillable.Common.Table.{find, find-update}
use fillable.Documents.Schema.{Db, Resource, lease_key, resource_key}
use fillable.Documents.Session.{SessionState, is_active_state, active_user, resource}
use fillable.Documents.Rows.{find-delete}
use fillable.Documents.RevisionCommit.{SaveRequest, Prepared, holder, commit, moved_to}
use fillable.Documents.RevisionCommit.Commit.{commit-rows, commit-parts}
use fillable.Documents.Trash.{is_active, owned, move, to_trash}
use fillable.Documents.Calls.{Call, perform, perform_all, asks_lease, restores_it}
use fillable.Documents.Calls.Following.{IsPast}
use fillable.Documents.Calls.Stepping.{added-Keeps, perform-Follows}

-- The fence reads the document's row and its lease.
holder-rows :
    (now identity : ℕ) (state : SessionState) (request : SaveRequest) (db db' : Db) (d r : Resource)
    → find resource_key identity db.resources ≡ some r
    → holder now state identity request db ≡ ok (d, db')
    → (r.current_version_id ≡ request.source_version_id)
      × (is_active_state r.state ≢ false)
      × (find lease_key identity db.leases ≢ none)
unfolding holder active_user resource
holder-rows now identity state request db db' d r found h =
    (ground (arith, found), (λ e. ground (arith, found, e)), (λ e. ground (arith, found, e)))

perform_all-IsPast :
    (calls : List Call) (k old : ℕ) (db : Db) (r : Resource)
    → find resource_key k db.resources ≡ some r
    → IsPast old r db
    → (r' : Resource) × (find resource_key k (perform_all calls db).resources ≡ some r')
      × IsPast old r' (perform_all calls db)
unfolding perform_all
perform_all-IsPast [] k old db r found p = (r, found, p)
perform_all-IsPast (c ∷ cs) k old db r found p =
    let (r', found', past, _, _) = perform-Follows c k db r found in
    perform_all-IsPast cs k old (perform c db) r' found' (past old p)

perform_all-inactive :
    (calls : List Call) (k : ℕ) (db : Db) (r : Resource)
    → All (λ c. restores_it k c ≡ false) calls
    → find resource_key k db.resources ≡ some r
    → is_active_state r.state ≡ false
    → (r' : Resource) × (find resource_key k (perform_all calls db).resources ≡ some r')
      × (is_active_state r'.state ≡ false)
unfolding perform_all
perform_all-inactive [] k db r a found i = (r, found, i)
perform_all-inactive (c ∷ cs) k db r a found i =
    let (r', found', _, inactive, _) = perform-Follows c k db r found in
    perform_all-inactive cs k (perform c db) r' a.1 found' (inactive a.0 i)

perform_all-unleased :
    (calls : List Call) (k : ℕ) (db : Db) (r : Resource)
    → All (λ c. asks_lease k c ≡ false) calls
    → find resource_key k db.resources ≡ some r
    → find lease_key k db.leases ≡ none
    → (r' : Resource) × (find resource_key k (perform_all calls db).resources ≡ some r')
      × (find lease_key k (perform_all calls db).leases ≡ none)
unfolding perform_all
perform_all-unleased [] k db r a found i = (r, found, i)
perform_all-unleased (c ∷ cs) k db r a found i =
    let (r', found', _, _, unleased) = perform-Follows c k db r found in
    perform_all-unleased cs k (perform c db) r' a.1 found' (unleased a.0 i)

commit-IsPast :
    (now fresh version_id : ℕ) (state : SessionState) (identity : ℕ) (request : SaveRequest)
    (owner file : ℕ) (prepared : Prepared) (from : Option ℕ) (db db' : Db)
    → commit now fresh version_id state identity request owner file prepared from db ≡ ok (tt, db')
    → (r : Resource) × (find resource_key identity db'.resources ≡ some r)
      × IsPast request.source_version_id r db'
unfolding holder active_user resource
commit-IsPast now fresh version_id state identity request owner file prepared from db db' h =
    let (p, found, versions, resources, _, _, _) =
      commit-rows now fresh version_id state identity request owner file prepared from db db' h in
    let (d, _, _, fence, _, free, _) =
      commit-parts now fresh version_id state identity request owner file prepared from db db' h in
    let u =
      find-update resource_key identity identity (moved_to now version_id) db.resources
        (λ _ e. e) in
    let (w, there) = added-Keeps db db' _ versions request.source_version_id p found in
    (
      moved_to now version_id d,
      ground (arith, fence, resources, u),
      record { version = w; there = there; left = λ e. ground (arith, free, found, e) },
    )

-- After a commit that succeeded and any calls of the documents' transactions, by anyone and in any
-- order, nobody, at any time, passes the fence `holder` of the document with the revision that the
-- commit was made from: no revision is saved over twice.
pub commit-once :
    (now fresh version_id : ℕ) (state : SessionState) (identity : ℕ) (request : SaveRequest)
    (owner file : ℕ) (prepared : Prepared) (from : Option ℕ) (db db' : Db) (calls : List Call)
    (later : ℕ) (state' : SessionState) (request' : SaveRequest) (d : Resource) (db'' : Db)
    → commit now fresh version_id state identity request owner file prepared from db ≡ ok (tt, db')
    → request'.source_version_id ≡ request.source_version_id
    → ¬ (holder later state' identity request' (perform_all calls db') ≡ ok (d, db''))
commit-once now fresh version_id state identity request owner file prepared from db db' calls later
      state' request' d db'' h same again =
    let (r, found, past) =
      commit-IsPast now fresh version_id state identity request owner file prepared from db db' h in
    let (r', found', past') =
      perform_all-IsPast calls identity request.source_version_id db' r found past in
    let (current, _, _) =
      holder-rows later identity state' request' (perform_all calls db') db'' d r' found' again in
    past'.left (current ∙ same)

move-rows :
    (now identity : ℕ) (state : SessionState) (db db' : Db) (row : Resource)
    → find resource_key identity db.resources ≡ some row
    → is_active row.state ≡ true
    → move now state identity db ≡ ok (tt, db')
    → (find resource_key identity db'.resources ≡ some (to_trash now row))
      × (find lease_key identity db'.leases ≡ none)
unfolding move owned active_user
move-rows now identity state db db' row found live h =
    let u = find-update resource_key identity identity (to_trash now) db.resources (λ _ e. e) in
    let l = find-delete lease_key identity db.leases in
    (ground (arith, found, live, u), ground (arith, found, live, l))

-- After an active document was moved to the trash, and any calls of the documents' transactions
-- that do not restore it, or that do not ask for its lease, nobody, at any time, passes the fence
-- `holder` of the document: a save needs both a restoration and a new lease.
pub move-fences :
    (now identity : ℕ) (state : SessionState) (db db' : Db) (row : Resource) (calls : List Call)
    (later : ℕ) (state' : SessionState) (request : SaveRequest) (d : Resource) (db'' : Db)
    → find resource_key identity db.resources ≡ some row
    → is_active row.state ≡ true
    → move now state identity db ≡ ok (tt, db')
    → All (λ c. restores_it identity c ≡ false) calls
      ⊎ All (λ c. asks_lease identity c ≡ false) calls
    → ¬ (holder later state' identity request (perform_all calls db') ≡ ok (d, db''))
move-fences now identity state db db' row calls later state' request d db'' found live h (inl a)
      again =
    let (there, _) = move-rows now identity state db db' row found live h in
    let (r, at, still) = perform_all-inactive calls identity db' (to_trash now row) a there refl in
    let (_, active, _) =
      holder-rows later identity state' request (perform_all calls db') db'' d r at again in
    active still
move-fences now identity state db db' row calls later state' request d db'' found live h (inr a)
      again =
    let (there, free) = move-rows now identity state db db' row found live h in
    let (r, at, still) = perform_all-unleased calls identity db' (to_trash now row) a there free in
    let (_, _, leased) =
      holder-rows later identity state' request (perform_all calls db') db'' d r at again in
    leased still
