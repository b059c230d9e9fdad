-- ===== src/Documents/Calls/Stepping.antt =====
-- What any call of the documents' transactions (backend/app/documents/) leaves of a document's row and
-- lease.
use mathlib.Core.Path.{subst}
use fillable.Common.{
  ℕ, ◌≡◌, ◌≢◌, refl, sym, if◌then◌else◌, Bool, false, Option, none, some, ◌∷◌, arith, ◌==◌, Outcome,
  ok, err, Option-cases, Bool-cases, inl, inr,
}
use fillable.Common.Table.{find, find-update}
use fillable.Documents.Schema.{
  Db, AppError, Resource, Version, Job, Snapshot, lease_key, resource_key, version_key,
}
use fillable.Documents.Session.{SessionState, active_user, resource}
use fillable.Documents.Rows.{find-delete, find-delete_other, find-update_where}
use fillable.Documents.Leases.{change}
use fillable.Documents.RevisionCommit.{
  SaveRequest, Prepared, commit, moved_to, at_version, saved_version,
}
use fillable.Documents.RevisionCommit.Commit.{commit-rows, commit-parts, intent-keeps}
use fillable.Documents.Titles.{rename}
use fillable.Documents.Trash.{move, restore, empty, due_at, is_trash_of}
use fillable.Documents.Deletion.{
  request_deletion, deleted_in, version_of_document, wiped_version, to_deleted,
}
use fillable.Documents.Deletion.Sparing.{request_deletion-shape, mark_row-Deleted}
use fillable.Documents.Copies.{CopyRequest, Copied, finalize, first_version}
use fillable.Documents.Copies.Independent.{finalize-HasCopied}
use fillable.Jobs.Service.{submit}
use fillable.Jobs.Worker.{committed}
use fillable.Documents.Calls.{Call, perform, asks_lease, restores_it}
use fillable.Documents.Calls.Following.{
  Follows, Keeps, kept-IsPast, same-Keeps, stays, updates-Follows, leaves-Follows, change-Follows,
  rename-Follows, move-Follows, restore-Follows,
}

-- A new revision with an unused identity.
pub added-Keeps : (db db' : Db) (v : Version) → db'.versions ≡ v ∷ db.versions → Keeps db db'
added-Keeps db db' v e old w h = elim (Bool-cases (v.id == old)) [
  | inl same ↦ (v, ground (arith, e, same))
  | inr other ↦ (w, ground (arith, e, other, h))
]

submit-Follows :
    (b c : Bool) (now fresh identity k : ℕ) (state : SessionState) (db db' : Db) (j : Job)
    → submit now fresh state identity db ≡ ok (j, db')
    → Follows b c k db db'
unfolding submit active_user resource
submit-Follows b c now fresh identity k state db db' j h =
    elim (Option-cases (find resource_key identity db.resources)) [
      | inl missing ↦ absurd (ground (arith, missing))
      | inr (d, found) ↦
          let kept =
            intent-keeps now fresh d.owner_id identity d.current_version_id db db' j
              (ground (arith, found)) in
          leaves-Follows b c k 0 (λ x. x) db db' (ground (arith, kept)) (ground (arith, kept))
            (λ _ q. ground (arith, kept, q))
    ]

empty-Follows :
    (b c : Bool) (now k : ℕ) (state : SessionState) (db db' : Db)
    → empty now state db ≡ ok (tt, db')
    → Follows b c k db db'
unfolding empty active_user
empty-Follows b c now k state db db' h r found = elim (Option-cases state.user) [
  | inl nobody ↦ absurd (ground (arith, nobody))
  | inr (owner, u) ↦
      let f = λ (x : Resource). if is_trash_of owner x then due_at now x else x in
      let rows =
        find-update_where resource_key (is_trash_of owner) (due_at now) k db.resources
          (λ x. refl) in
      let same : db'.versions ≡ db.versions = ground (arith, u) in
      (
        f r,
        ground (arith, u, rows, found),
        (λ old p. kept-IsPast old r (f r) db db' (ground arith) (same-Keeps db db' same) p),
        (λ x q. ground (arith, q)),
        (λ x q. ground (arith, u, q)),
      )
]

request_deletion-found :
    (now owner identity : ℕ) (state : Option SessionState) (expired_only : Bool) (db db' : Db)
    → find resource_key identity db.resources ≡ none
    → ¬ (request_deletion now owner identity state expired_only db ≡ ok (tt, db'))
unfolding request_deletion active_user
request_deletion-found now owner identity none expired_only db db' missing h =
    ground (arith, missing)
request_deletion-found now owner identity (some s) expired_only db db' missing h =
    ground (arith, missing)

deleted-Follows :
    (b c : Bool) (owner identity original k : ℕ) (db : Db)
    → Follows b c k db (deleted_in owner identity original db)
unfolding deleted_in
deleted-Follows b c owner identity original k db =
    updates-Follows b c k identity to_deleted db (deleted_in owner identity original db) (λ x. refl)
      (λ x. refl) (λ x _ _ q. refl) refl
      (λ old v h.
        let u =
          find-update_where version_key (version_of_document identity) wiped_version old db.versions
            (λ x. refl) in
        elim (Bool-cases (version_of_document identity v)) [
          | inl own ↦ (wiped_version v, ground (arith, u, h, own))
          | inr other ↦ (v, ground (arith, u, h, other))
        ])
      (λ _ q. elim (Bool-cases (identity == k)) [
        | inl here ↦ ground (arith, here, find-delete lease_key k db.leases)
        | inr apart ↦ ground (arith, q, find-delete_other lease_key identity k db.leases apart)
      ])

delete-Follows :
    (b c : Bool) (now owner identity k : ℕ) (state : Option SessionState) (expired_only : Bool)
    (db db' : Db)
    → request_deletion now owner identity state expired_only db ≡ ok (tt, db')
    → Follows b c k db db'
delete-Follows b c now owner identity k state expired_only db db' h =
    elim (Option-cases (find resource_key identity db.resources)) [
      | inl missing ↦
          absurd (request_deletion-found now owner identity state expired_only db db' missing h)
      | inr (row, found) ↦
          let same = λ (e : db' ≡ db). subst (Follows b c k db) (sym e) (stays b c k db) in
          elim (request_deletion-shape now owner identity state expired_only db db' row found h) [
            | inl kept ↦ same kept
            | inr marked ↦ elim (mark_row-Deleted owner identity row db db' marked) [
              | inl kept ↦ same kept
              | inr (changed, _, _) ↦
                  subst (Follows b c k db) (sym changed)
                    (deleted-Follows b c owner identity row.original_file_id k db)
            ]
          ]
    ]

commit-Follows :
    (b c : Bool) (now fresh version_id : ℕ) (state : SessionState) (identity : ℕ)
    (request : SaveRequest) (owner file : ℕ) (prepared : Prepared) (from : Option ℕ) (k : ℕ)
    (db db' : Db)
    → commit now fresh version_id state identity request owner file prepared from db ≡ ok (tt, db')
    → Follows b c k db db'
commit-Follows b c now fresh version_id state identity request owner file prepared from k db db' h r
      found =
    let (p, _, versions, resources, leases, _, _) =
      commit-rows now fresh version_id state identity request owner file prepared from db db' h in
    let (_, _, _, _, _, free, _) =
      commit-parts now fresh version_id state identity request owner file prepared from db db' h in
    let u = find-update resource_key identity k (moved_to now version_id) db.resources (λ _ e. e) in
    let l = find-update lease_key identity k (at_version version_id) db.leases (λ _ e. e) in
    let v = saved_version version_id identity owner file request prepared from p.number in
    let keeps = added-Keeps db db' v versions in
    let unleased : find lease_key k db.leases ≡ none → find lease_key k db'.leases ≡ none =
      λ q. ground (arith, leases, l, q) in
    elim (Bool-cases (identity == k)) [
      | inr other ↦ (
        r,
        ground (arith, resources, u, found, other),
        (λ old p. kept-IsPast old r r db db' refl keeps p),
        (λ x q. q),
        (λ x q. unleased q),
      )
      | inl here ↦ (
        moved_to now version_id r,
        ground (arith, resources, u, found, here),
        (λ old p.
            let (w, there) = keeps old p.version p.there in
            record { version = w; there = there; left = λ e. ground (arith, free, p.there, e) }),
        (λ x q. q),
        (λ x q. unleased q),
      )
    ]

copy-Follows :
    (b c : Bool) (now fresh target version : ℕ) (state : SessionState) (owner identity : ℕ)
    (request : CopyRequest) (file : ℕ) (copied : Copied)
    (rebase : Snapshot → Outcome AppError Snapshot) (k : ℕ) (db db' : Db)
    → finalize now fresh target version state owner identity request file copied rebase db
      ≡ ok (tt, db')
    → Follows b c k db db'
copy-Follows b c now fresh target version state owner identity request file copied rebase k db db' h
      r found =
    let x =
      finalize-HasCopied now fresh target version owner identity file state request copied rebase db
        db' h in
    let other : target ≢ k = λ e. ground (arith, x.free, found, e) in
    (
      r,
      ground (arith, x.resources, found, other),
      (λ old p.
          kept-IsPast old r r db db' refl
            (added-Keeps db db' (first_version version target owner file copied) x.versions) p),
      (λ _ q. q),
      (λ _ q. ground (arith, x.leases, q)),
    )

-- What a transaction keeps when it commits, a call keeps.
call-Follows :
    {A : Type 0} (b c : Bool) (k : ℕ) (db : Db) (o : Outcome AppError (A × Db))
    → ((a : A) (db' : Db) → o ≡ ok (a, db') → Follows b c k db db')
    → Follows b c k db (committed o db)
call-Follows b c k db (err e) f = stays b c k db
call-Follows b c k db (ok (a, db')) f = f a db' refl

pub perform-Follows :
    (c : Call) (k : ℕ) (db : Db) → Follows (restores_it k c) (asks_lease k c) k db (perform c db)
unfolding perform
perform-Follows (Call.leases now fresh state identity request) k db =
    call-Follows false (identity == k) k db (change now fresh state identity request db)
      (λ a db' h. change-Follows false now fresh identity k state request db db' a h)
perform-Follows (Call.saves now fresh version_id state identity request owner file prepared from) k
      db =
    call-Follows false false k db
      (commit now fresh version_id state identity request owner file prepared from db)
      (λ a db' h.
        commit-Follows false false now fresh version_id state identity request owner file prepared
          from k db db' h)
perform-Follows (Call.renames now state identity request) k db =
    call-Follows false false k db (rename now state identity request db)
      (λ a db' h. rename-Follows false false now identity k state request db db' a h)
perform-Follows (Call.moves now state identity) k db =
    call-Follows false false k db (move now state identity db)
      (λ a db' h. move-Follows false false now identity k state db db' h)
perform-Follows (Call.restores now state identity) k db =
    call-Follows (identity == k) false k db (restore now state identity db)
      (λ a db' h. restore-Follows false now identity k state db db' h)
perform-Follows (Call.empties now state) k db =
    call-Follows false false k db (empty now state db)
      (λ a db' h. empty-Follows false false now k state db db' h)
perform-Follows (Call.deletes now owner identity state expired_only) k db =
    call-Follows false false k db (request_deletion now owner identity state expired_only db)
      (λ a db' h. delete-Follows false false now owner identity k state expired_only db db' h)
perform-Follows
      (Call.copies now fresh target version state owner identity request file copied rebase) k db =
    call-Follows false false k db
      (finalize now fresh target version state owner identity request file copied rebase db)
      (λ a db' h.
        copy-Follows false false now fresh target version state owner identity request file copied
          rebase k db db' h)
perform-Follows (Call.submits now fresh state identity) k db =
    call-Follows false false k db (submit now fresh state identity db)
      (λ a db' h. submit-Follows false false now fresh identity k state db db' a h)
