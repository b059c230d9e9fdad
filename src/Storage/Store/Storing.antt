-- ===== src/Storage/Store/Storing.antt =====
-- What one run of `store` leaves when it succeeds, through its failures and its clean-up
-- (backend/app/storage/service.py).
use fillable.Common.{
  ℕ, ◌≡◌, refl, ◌∙◌, ap, Bool, true, false, Option, none, some, List, Outcome, ok, err, arith,
  if◌then◌else◌, flatten,
}
use fillable.Common.Table.{find}
use fillable.Storage.Schema.{Reservation, Db, Error, size_mismatch}
use fillable.Storage.FileSystem.{stage}
use fillable.Storage.Service.{Policy, Env, Operation, StoredFile, reservation_key, lock_account}
use fillable.Storage.Reserving.{Request}
use fillable.Storage.Finishing.{clean_mark, is_committed}
use fillable.Storage.World.{World, in_db, in_fs, throw, continue}
use fillable.Storage.World.Triple.{Triple, Post, Triple-bind, Triple-in_db, Triple-in_fs}
use fillable.Storage.Store.{
  Surroundings, Progress, nothing, finish, sweep, clean_up, undone, swept, fill, create,
  size_differs, is_os,
}
use fillable.Storage.Store.Held.{Held, any_state}
use fillable.Storage.Store.Writing.{
  IsWriting, result_of, clean_lem, stage_lem, fails-Triple, fact-Triple,
}
use fillable.Storage.Store.Content.{IsKept, finish-Triple}
use fillable.Storage.Store.Writing.{write_chunks-Triple}

-- A committed operation's clean-up touches no row.
clean_mark_lem :
    (env : Env) (op : Operation) (db db' : Db) (x : Option Bool) {r : Reservation}
    → find reservation_key op.id db.reservations ≡ some r
    → is_committed r.state ≡ true
    → clean_mark env op db ≡ ok (x, db')
    → (x ≡ some true) × (db' ≡ db)
unfolding clean_mark lock_account
clean_mark_lem env op db db' x {r} f c e = ground arith

module _ (request : Request) (op : Operation) (policy : Policy) (sha256 : List ℕ → ℕ)
    (around : Surroundings) where
  module _ (inode : ℕ) (p : Progress) (digest : ℕ) where
    abbrev Kept : World → Type 0
    Kept = IsKept request op inode p digest

    sweep-Kept : Triple Kept (sweep policy around op (some true)) (λ _. Kept) Kept
    sweep-Kept = Triple-bind _ _ (fails-Triple around.clean (λ w h. h)) λ _.
        Triple-in_fs _ (λ w h. h)
          (λ w a fs h e.
            let l = clean_lem op.id op.owner_id op.file_id inode w.files fs a e in
            record {
              held = h.held;
              file = h.file;
              link = l.0 ∙ h.link;
              bytes = l.1 ∙ h.bytes;
              size = h.size;
            })

    clean_up-Kept : Triple Kept (clean_up policy around op) (λ _. Kept) Kept
    unfolding clean_up
    clean_up-Kept =
        Triple-bind {Q = λ x w. Kept w × (x ≡ some true)} (in_db (clean_mark around.mark op)) _
          (Triple-in_db _ (λ w h. h)
            (λ w x db h e.
              let l = clean_mark_lem around.mark op w.db db x h.held.by_id h.held.state e in
              (rw l.1 h, l.0)))
          λ x. fact-Triple λ e. rw e sweep-Kept

  -- What a success leaves: some inode, and the content as progress.
  abbrev pub Stored : List ℕ → StoredFile → World → Type 0
  Stored bytes f w =
      (inode : ℕ) × (p : Progress) × IsKept request op inode p (sha256 bytes) w
      × (p.hashed ≡ bytes)
      × (f ≡ result_of op p (sha256 bytes))

  fill-Stored :
      (expected : Option ℕ) (chunks : List (List ℕ))
      → Triple
          (λ w. Held request op any_state w.db)
          (fill policy sha256 around op expected chunks)
          (Stored (flatten chunks))
          (λ _. Unit)
  unfolding fill
  fill-Stored expected chunks = Triple-bind _ _ (fails-Triple around.stage (λ w h. tt)) λ _.
      Triple-bind {Q = λ inode. IsWriting request op inode nothing} (in_fs (stage op.id)) _
        (Triple-in_fs _ (λ w h. tt)
          (λ w inode fs h e.
            let l = stage_lem op.id inode w.files fs e in
            record { held = h; link = l.0; bytes = l.1; size = refl }))
        λ inode.
          Triple-bind _ _
            (write_chunks-Triple request op inode policy around.part 0 nothing chunks
              (flatten chunks) refl)
            λ p.
              Triple-bind _ _
                (fails-Triple (if size_differs expected p.size then some size_mismatch else none)
                  (λ w h. tt))
                λ _. fact-Triple λ q. record {
                  at = λ w h.
                      Post-Stored inode p q (finish policy around op p.size (sha256 p.hashed) w)
                        ((finish-Triple request op inode policy around p (sha256 p.hashed)).at w h);
                }
    where
      Post-Stored :
          (inode : ℕ) (p : Progress)
          → p.hashed ≡ flatten chunks
          → (r : Outcome Error StoredFile × World)
          → Post
              (λ f w.
                IsKept request op inode p (sha256 p.hashed) w
                × (f ≡ result_of op p (sha256 p.hashed)))
              (λ _. Unit)
              r
          → Post (Stored (flatten chunks)) (λ _. Unit) r
      Post-Stored inode p q (ok f, w) h =
          (inode, p, rw (ap sha256 q) at h.0, q, h.1 ∙ ap (λ d. result_of op p d) (ap sha256 q))
      Post-Stored inode p q (err e, w) h = tt

  undone-Stored :
      (bytes : List ℕ) (r : Outcome Error StoredFile × World)
      → Post (Stored bytes) (λ _. Unit) r
      → Post (Stored bytes) (λ _. Unit) (undone policy sha256 around op r)
  undone-Stored bytes (ok f, w) h = h
  undone-Stored bytes (err e, w) h = raised (clean_up policy around op w)
    where
      raised :
          (c : Outcome Error Unit × World)
          → Post (Stored bytes) (λ _. Unit) (let (r, w') = c in continue r (λ _. throw e) w')
      raised (ok _, w') = tt
      raised (err _, w') = tt

  pub create-Stored :
      (expected : Option ℕ) (chunks : List (List ℕ))
      → Triple
          (λ w. Held request op any_state w.db)
          (create policy sha256 around op expected chunks)
          (Stored (flatten chunks))
          (λ _. Unit)
  unfolding create
  create-Stored expected chunks =
      Triple-bind {Q = Stored (flatten chunks)}
        (λ w. undone policy sha256 around op (fill policy sha256 around op expected chunks w)) _
        (record {
          at = λ w h.
              undone-Stored (flatten chunks) (fill policy sha256 around op expected chunks w)
                ((fill-Stored expected chunks).at w h);
        })
        λ f. record {
          at = λ w h.
              kept f h (clean_up policy around op w)
                ((clean_up-Kept h.0 h.1 (sha256 (flatten chunks))).at w h.2);
        }
    where
      kept :
          {w₀ : World} (f : StoredFile) (h : Stored (flatten chunks) f w₀)
          (r : Outcome Error Unit × World)
          → Post
              (λ _. Kept h.0 h.1 (sha256 (flatten chunks)))
              (Kept h.0 h.1 (sha256 (flatten chunks)))
              r
          → Post (Stored (flatten chunks)) (λ _. Unit) (swept policy sha256 around f r)
      kept f h (ok _, w) k = (h.0, h.1, k, h.3, h.4)
      kept f h (err e, w) k =
          elim (is_os e)
            as (λ c. Post (Stored (flatten chunks)) (λ _. Unit) (if c then ok f else err e, w)) [
              | true ↦ (h.0, h.1, k, h.3, h.4)
              | false ↦ tt
            ]
