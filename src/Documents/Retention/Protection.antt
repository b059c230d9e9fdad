-- ===== src/Documents/Retention/Protection.antt =====
-- A pruned version leaves the protection of files as it was (backend/app/documents/retention.py).
use mathlib.Core.Path.{subst}
use fillable.Common.{ℕ, ◌≡◌, ◌≢◌, ◌∙◌, sym, refl, some, List, arith, ◌==◌, Bool-cases, inl, inr}
use fillable.Common.Table.{find, update, find-update}
use fillable.Documents.Schema.{Db, Version, resource_key, version_key}
use fillable.Documents.Retention.Policy.{emptied, pruned_in}
use fillable.Documents.Retention.Sparing.{IsKept, IsProtected}
use fillable.Storage.Schema.{StoredRow, FileState, Db as StorageDb}
use fillable.Storage.Service.{file_key}

find-emptied :
    (i k : ℕ) (vs : List Version) (v : Version)
    → find version_key k vs ≡ some v
    → (v' : Version) × (find version_key k (update version_key i emptied vs) ≡ some v')
      × (v'.id ≡ v.id)
      × (v'.document_id ≡ v.document_id)
      × (v'.file_id ≡ v.file_id)
      × (v'.number ≡ v.number)
find-emptied i k vs v h =
    let u = find-update version_key i k emptied vs (λ r e. e) in
    elim (Bool-cases (i == k)) [
      | inl same ↦ (emptied v, ground (arith, u, h, same), refl, refl, refl, refl)
      | inr apart ↦ (v, ground (arith, u, h, apart), refl, refl, refl, refl)
    ]

IsKept-pruned :
    (now file : ℕ) (c : Version) (db : Db) → IsKept db file → IsKept (pruned_in now c db) file
IsKept-pruned now file c db v =
    let (w, at, wi, wd, wf, wn) = find-emptied c.id v.version.id db.versions v.version v.at in
    let (n, newest, ni, nd, nf, nn) =
      find-emptied c.id v.resource.current_version_id db.versions v.current v.newest in
    record {
      version = w;
      resource = v.resource;
      current = n;
      keep = v.keep;
      policy = v.policy;
      at =
          subst (λ i. find version_key i (update version_key c.id emptied db.versions) ≡ some w)
            (sym wi) at;
      of = subst (λ i. find resource_key i db.resources ≡ some v.resource) (sym wd) v.of;
      newest = newest;
      has = wf ∙ v.has;
      why = ground (arith, wi, wn, nn, v.why);
    }

pub IsProtected-pruned :
    (now file : ℕ) (c : Version) (db : Db)
    → IsProtected db file
    → IsProtected (pruned_in now c db) file
IsProtected-pruned now file c db (inl v) = inl v
IsProtected-pruned now file c db (inr v) = inr (IsKept-pruned now file c db v)

-- What a step leaves of a protected file that is ready: its row, and its protection.
abbrev pub Spared : ℕ → StoredRow → Db → Type 0
Spared file f db =
    (find file_key file db.storage.files ≡ some f)
    × (f.state ≡ FileState.ready)
    × IsProtected db file

-- A change of the storage alone.
pub Spared-storage :
    (file : ℕ) (f : StoredRow) (db : Db) (storage : StorageDb)
    → Spared file f db
    → find file_key file storage.files ≡ find file_key file db.storage.files
    → Spared file f (record db { storage = storage })
Spared-storage file f db storage (at, ready, inl v) same = (same ∙ at, ready, inl v)
Spared-storage file f db storage (at, ready, inr v) same = (
  same ∙ at,
  ready,
  inr (record {
    version = v.version;
    resource = v.resource;
    current = v.current;
    keep = v.keep;
    policy = v.policy;
    at = v.at;
    of = v.of;
    newest = v.newest;
    has = v.has;
    why = v.why;
  }),
)

pub find-update_other :
    (k j : ℕ) (g : StoredRow → StoredRow) (fs : List StoredRow)
    → ((r : StoredRow) → file_key r ≡ k → file_key (g r) ≡ k)
    → k ≢ j
    → find file_key j (update file_key k g fs) ≡ find file_key j fs
find-update_other k j g fs keep apart =
    let u = find-update file_key k j g fs keep in ground (arith, u)
