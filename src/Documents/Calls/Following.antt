-- ===== src/Documents/Calls/Following.antt =====
-- What one of the documents' transactions (backend/app/documents/) leaves of a document's row and lease.
use fillable.Common.{
  ℕ, ◌≡◌, ◌≢◌, refl, Bool, false, Option, none, some, List, arith, ◌==◌, ◌&&◌, str_eq, ◌⊎◌, true,
  ok, Option-cases, Bool-cases, inl, inr,
}
use fillable.Common.Table.{find, update, find-update}
use fillable.Documents.Schema.{Db, Resource, Version, Lease, lease_key, resource_key, version_key}
use fillable.Documents.Session.{SessionState, is_active_state, active_user, resource}
use fillable.Documents.Rows.{delete, find-delete, find-delete_other}
use fillable.Documents.Leases.{
  LeaseRequest, LeaseInfo, change, take_row, write_lease, lease_row, token_of, in_force, is_same,
  is_release, is_generation,
}
use fillable.Documents.Titles.{RenameRequest, rename, titled}
use fillable.Documents.Trash.{is_active, is_trashed, owned, move, restore, to_trash, out_of_trash}

-- A revision that is there and that the document has left behind.
pub record IsPast (old : ℕ) (r : Resource) (db : Db) : Type 0 where
  pub version : Version
  pub there : find version_key old db.versions ≡ some version
  pub left : r.current_version_id ≢ old

-- What any step keeps of the document `k`, where `restored` and `leased` say whether the step
-- restores the document and asks for its lease.
abbrev pub Follows : Bool → Bool → ℕ → Db → Db → Type 0
Follows restored leased k db db' =
    (r : Resource)
    → find resource_key k db.resources ≡ some r
    → (r' : Resource) × (find resource_key k db'.resources ≡ some r')
      × ((old : ℕ) → IsPast old r db → IsPast old r' db')
      × (restored ≡ false → is_active_state r.state ≡ false → is_active_state r'.state ≡ false)
      × (leased ≡ false → find lease_key k db.leases ≡ none → find lease_key k db'.leases ≡ none)

-- The identities of revisions stay.
abbrev pub Keeps : Db → Db → Type 0
Keeps db db' =
    (old : ℕ) (v : Version)
    → find version_key old db.versions ≡ some v
    → (v' : Version) × (find version_key old db'.versions ≡ some v')

pub same-Keeps : (db db' : Db) → db'.versions ≡ db.versions → Keeps db db'
same-Keeps db db' e old v h = (v, ground (arith, e, h))

pub kept-IsPast :
    (old : ℕ) (r r' : Resource) (db db' : Db)
    → r'.current_version_id ≡ r.current_version_id
    → Keeps db db'
    → IsPast old r db
    → IsPast old r' db'
kept-IsPast old r r' db db' e v p =
    let (version, there) = v old p.version p.there in
    record { version = version; there = there; left = λ q. p.left (ground (arith, e, q)) }

pub stays : (b c : Bool) (k : ℕ) (db : Db) → Follows b c k db db
stays b c k db r h = (r, h, (λ old p. p), (λ x i. i), (λ x i. i))

write_lease_other :
    (k : ℕ) (l : Lease) (rows : List Lease) (x : Option Lease)
    → (l.document_id == k) ≡ false
    → find lease_key k (write_lease x l rows) ≡ find lease_key k rows
write_lease_other k l rows none e = ground (arith, e)
write_lease_other k l rows (some _) e =
    ground (arith, e, find-update lease_key l.document_id k (λ _. l) rows (λ _ _. refl))

-- A step that rewrites rows of documents, or none.
module _ (b c : Bool) (k i : ℕ) (f : Resource → Resource) (db db' : Db) where
  pub updates-Follows :
      ((x : Resource) → (f x).id ≡ x.id)
      → ((x : Resource) → (f x).current_version_id ≡ x.current_version_id)
      → ((x : Resource)
          → b ≡ false
          → (i == k) ≡ true
          → is_active_state x.state ≡ false
          → is_active_state (f x).state ≡ false)
      → db'.resources ≡ update resource_key i f db.resources
      → Keeps db db'
      → (c ≡ false → find lease_key k db.leases ≡ none → find lease_key k db'.leases ≡ none)
      → Follows b c k db db'
  updates-Follows id current active rows versions leases r found =
      let u = find-update resource_key i k f db.resources (λ x q. ground (arith, id x, q)) in
      elim (Bool-cases (i == k)) [
        | inl here ↦ (
          f r,
          ground (arith, rows, u, found, here),
          (λ old p. kept-IsPast old r (f r) db db' (current r) versions p),
          (λ x q. active r x here q),
          leases,
        )
        | inr other ↦ (
          r,
          ground (arith, rows, u, found, other),
          (λ old p. kept-IsPast old r r db db' refl versions p),
          (λ x q. q),
          leases,
        )
      ]

  pub leaves-Follows :
      db'.resources ≡ db.resources
      → db'.versions ≡ db.versions
      → (c ≡ false → find lease_key k db.leases ≡ none → find lease_key k db'.leases ≡ none)
      → Follows b c k db db'
  leaves-Follows rows versions leases r found = (
    r,
    ground (arith, rows, found),
    (λ old p. kept-IsPast old r r db db' refl (same-Keeps db db' versions) p),
    (λ x q. q),
    leases,
  )

change-leases :
    (now fresh identity : ℕ) (state : SessionState) (request : LeaseRequest) (db db' : Db)
    (info : LeaseInfo)
    → change now fresh state identity request db ≡ ok (info, db')
    → (db'.leases ≡ db.leases)
      ⊎ ((db'.leases ≡ delete lease_key identity db.leases)
          ⊎ ((l : Lease) × (l.document_id ≡ identity)
              × (db'.leases ≡ write_lease (find lease_key identity db.leases) l db.leases)))
unfolding change take_row active_user resource
change-leases now fresh identity state request db db' info h = elim (Option-cases state.user) [
  | inl nobody ↦ absurd (ground (arith, nobody))
  | inr (owner, u) ↦
      let row = find lease_key identity db.leases in
      let l =
        lease_row now owner identity state request
          (token_of (in_force now owner db row && is_same state request row) request fresh row) in
      elim (Bool-cases (is_release request.action)) [
        | inl going ↦ elim (Bool-cases (is_generation state request row)) [
          | inl own ↦ inr (inl (ground (arith, u, going, own)))
          | inr other ↦ inl (ground (arith, u, going, other))
        ]
        | inr staying ↦ inr (inr (l, refl, ground (arith, u, staying)))
      ]
]

change-rows :
    (now fresh identity : ℕ) (state : SessionState) (request : LeaseRequest) (db db' : Db)
    (info : LeaseInfo)
    → change now fresh state identity request db ≡ ok (info, db')
    → (db'.resources ≡ db.resources) × (db'.versions ≡ db.versions)
unfolding change take_row active_user resource
change-rows now fresh identity state request db db' info h = (ground arith, ground arith)

pub change-Follows :
    (b : Bool) (now fresh identity k : ℕ) (state : SessionState) (request : LeaseRequest)
    (db db' : Db) (info : LeaseInfo)
    → change now fresh state identity request db ≡ ok (info, db')
    → Follows b (identity == k) k db db'
change-Follows b now fresh identity k state request db db' info h =
    let rows = change-rows now fresh identity state request db db' info h in
    leaves-Follows b (identity == k) k 0 (λ x. x) db db' rows.0 rows.1
      λ apart none_there. elim (change-leases now fresh identity state request db db' info h) [
        | inl same ↦ ground (arith, same, none_there)
        | inr (inl gone) ↦
            ground (arith, gone, none_there, find-delete_other lease_key identity k db.leases apart)
        | inr (inr (l, own, written)) ↦ ground (
          arith,
          written,
          none_there,
          own,
          apart,
          write_lease_other k l db.leases (find lease_key identity db.leases)
              (ground (arith, own, apart)),
        )
      ]

pub rename-Follows :
    (b c : Bool) (now identity k : ℕ) (state : SessionState) (request : RenameRequest) (db db' : Db)
    (answer : Resource)
    → rename now state identity request db ≡ ok (answer, db')
    → Follows b c k db db'
unfolding rename active_user resource
rename-Follows b c now identity k state request db db' answer h =
    elim (Option-cases (find resource_key identity db.resources)) [
      | inl missing ↦ absurd (ground (arith, missing))
      | inr (document, found) ↦ elim (Bool-cases (str_eq document.title request.title)) [
        | inl same ↦
            leaves-Follows b c k 0 (λ x. x) db db' (ground (arith, found, same))
              (ground (arith, found, same)) (λ _ q. ground (arith, found, same, q))
        | inr other ↦
            updates-Follows b c k identity (titled now request.title) db db' (λ x. refl) (λ x. refl)
              (λ x _ _ q. q) (ground (arith, found, other))
              (same-Keeps db db' (ground (arith, found, other)))
              (λ _ q. ground (arith, found, other, q))
      ]
    ]

pub move-Follows :
    (b c : Bool) (now identity k : ℕ) (state : SessionState) (db db' : Db)
    → move now state identity db ≡ ok (tt, db')
    → Follows b c k db db'
unfolding move owned active_user
move-Follows b c now identity k state db db' h =
    elim (Option-cases (find resource_key identity db.resources)) [
      | inl missing ↦ absurd (ground (arith, missing))
      | inr (row, found) ↦ elim (Bool-cases (is_active row.state)) [
        | inr other ↦
            leaves-Follows b c k 0 (λ x. x) db db' (ground (arith, found, other))
              (ground (arith, found, other)) (λ _ q. ground (arith, found, other, q))
        | inl live ↦
            let there = find-delete lease_key k db.leases in
            updates-Follows b c k identity (to_trash now) db db' (λ x. refl) (λ x. refl)
              (λ x _ _ q. refl) (ground (arith, found, live))
              (same-Keeps db db' (ground (arith, found, live)))
              (λ _ q. elim (Bool-cases (identity == k)) [
                | inl here ↦ ground (arith, found, live, here, there)
                | inr apart ↦
                    ground (
                      arith,
                      found,
                      live,
                      q,
                      find-delete_other lease_key identity k db.leases apart,
                    )
              ])
      ]
    ]

pub restore-Follows :
    (c : Bool) (now identity k : ℕ) (state : SessionState) (db db' : Db)
    → restore now state identity db ≡ ok (tt, db')
    → Follows (identity == k) c k db db'
unfolding restore owned active_user
restore-Follows c now identity k state db db' h =
    elim (Option-cases (find resource_key identity db.resources)) [
      | inl missing ↦ absurd (ground (arith, missing))
      | inr (row, found) ↦ elim (Bool-cases (is_trashed row.state)) [
        | inr other ↦
            leaves-Follows (identity == k) c k 0 (λ x. x) db db' (ground (arith, found, other))
              (ground (arith, found, other)) (λ _ q. ground (arith, found, other, q))
        | inl inside ↦
            updates-Follows (identity == k) c k identity out_of_trash db db' (λ x. refl) (λ x. refl)
              (λ x apart here. absurd (ground (arith, apart, here))) (ground (arith, found, inside))
              (same-Keeps db db' (ground (arith, found, inside)))
              (λ _ q. ground (arith, found, inside, q))
      ]
    ]
