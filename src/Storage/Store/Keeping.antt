-- ===== src/Storage/Store/Keeping.antt =====
-- The books under the writes, the finish and the clean-up of `store`
-- (backend/app/storage/service.py).
use fillable.Common.{
  ℕ, suc, ◌+◌, ◌≡◌, refl, Bool, true, false, Option, none, some, List, [], ◌∷◌, ok, arith,
  if◌then◌else◌, length, ltb,
}
use fillable.Common.Table.{find}
use fillable.Storage.Schema.{Account, Reservation, StoredRow, FileState, Db, Error, file_too_large}
use fillable.Storage.FileSystem.{Fs, append, publish, clean}
use fillable.Storage.Service.{Policy, Operation, StoredFile, Action, file_key}
use fillable.Storage.Reserving.{advance}
use fillable.Storage.Finishing.{
  staged_row, finish_staged, finish_check, finish_commit, clean_mark, result,
}
use fillable.Storage.World.{World, Method, in_db, in_fs, done}
use fillable.Storage.World.Triple.{
  Triple, Triple-bind, Triple-done, Triple-throw, Triple-in_db, Triple-in_fs,
}
use fillable.Storage.Accounting.Shapes.{Locked, finish_staged_lem, finish_check_lem}
use fillable.Storage.Accounting.Links.{IsBooked}
use fillable.Storage.Accounting.Steps.{advance-IsBooked}
use fillable.Storage.Accounting.Finishes.{finish_staged-IsBooked, finish_commit-IsBooked}
use fillable.Storage.Accounting.Ends.{clean_mark-IsBooked, clean_release-IsBooked}
use fillable.Storage.Store.{
  Surroundings, Moment, Progress, parts_of, fails, write_part, write_parts, write_chunks, finish,
  sweep, clean_up,
}

abbrev pub Booked : World → Type 0
Booked w = IsBooked w.db

abbrev pub Keeps : {A : Type 0} → Method A → Type 0
Keeps m = Triple Booked m (λ _. Booked) Booked

module _ {A : Type 0} where
  pub Keeps-in_db :
      (m : Action A)
      → ((db : Db) (a : A) (db' : Db) → IsBooked db → m db ≡ ok (a, db') → IsBooked db')
      → Keeps (in_db m)
  Keeps-in_db m h = Triple-in_db m (λ w p. p) (λ w a db p. h w.db a db p)

  pub Keeps-in_fs : (m : Fs A) → Keeps (in_fs m)
  Keeps-in_fs m = Triple-in_fs m (λ w p. p) (λ w a fs p e. p)

  pub Keeps-done : (a : A) → Keeps (done a)
  Keeps-done a = Triple-done a (λ w p. p)

-- A fault raises or does nothing.
Triple-fails :
    (P : World → Type 0) (x : Option Error)
    → ((w : World) → P w → Booked w)
    → Triple P (fails x) (λ _. P) Booked
Triple-fails P none h = Triple-done tt (λ w p. p)
Triple-fails P (some e) h = Triple-throw e h

pub Keeps-fails : (x : Option Error) → Keeps (fails x)
Keeps-fails x = Triple-fails Booked x (λ w p. p)

module _ (policy : Policy) (op : Operation) (around : ℕ → Moment) (inode : ℕ) where
  write_part-Keeps :
      (n : ℕ) (p : Progress) (part : List ℕ) → Keeps (write_part policy op around inode n p part)
  unfolding write_part
  write_part-Keeps n p part =
      Triple-bind (in_db (advance policy (around n).before op (p.size + length part) false)) _
        (Keeps-in_db _ (λ db a db' v e.
          advance-IsBooked policy (around n).before op (p.size + length part) false db db' a v e))
        λ _. Triple-bind (fails (around n).write) _ (Keeps-fails (around n).write) λ _.
          Triple-bind (in_fs (append inode part)) _ (Keeps-in_fs (append inode part)) λ _.
            Triple-bind (in_db (advance policy (around n).after op (p.size + length part) true)) _
              (Keeps-in_db _ (λ db a db' v e.
                advance-IsBooked policy (around n).after op (p.size + length part) true db db' a v
                  e))
              λ _. Keeps-done _

  write_parts-Keeps :
      (n : ℕ) (p : Progress) (parts : List (List ℕ))
      → Keeps (write_parts policy op around inode n p parts)
  unfolding write_parts
  write_parts-Keeps n p [] = Keeps-done (n, p)
  write_parts-Keeps n p (part ∷ parts) =
      Triple-bind (write_part policy op around inode n p part) _ (write_part-Keeps n p part)
        λ reached. write_parts-Keeps (suc n) reached parts

  pub write_chunks-Keeps :
      (n : ℕ) (p : Progress) (chunks : List (List ℕ))
      → Keeps (write_chunks policy op around inode n p chunks)
  unfolding write_chunks
  write_chunks-Keeps n p [] = Keeps-done p
  write_chunks-Keeps n p (chunk ∷ chunks) =
      Triple-bind
        (fails
          (if ltb policy.file_bytes (p.size + length chunk) then some file_too_large else none))
        _ (Keeps-fails _)
        λ _.
          Triple-bind (write_parts policy op around inode n p (parts_of (length chunk) chunk)) _
            (write_parts-Keeps n p (parts_of (length chunk) chunk))
            λ r. write_chunks-Keeps r.0 r.1 chunks

-- The staged row that the first transaction of `_finish` leaves for the second.
record HasStaged (op : Operation) (size : ℕ) (db : Db) : Type 0 where
  pub row : StoredRow
  found : find file_key op.file_id db.files ≡ some row
  of_operation : row.reservation_id ≡ op.id
  bytes : row.size_bytes ≡ size
  is_staged : row.state ≡ FileState.staged

abbrev Ready : Operation → ℕ → World → Type 0
Ready op size w = Booked w × HasStaged op size w.db

abbrev Checked : Operation → ℕ → Account × Reservation → World → Type 0
Checked op size x w = Booked w × HasStaged op size w.db × Locked w.db op x.0 x.1

module _ (policy : Policy) (around : Surroundings) where
  pub finish-Keeps :
      (op : Operation) (size digest : ℕ) → Keeps (finish policy around op size digest)
  unfolding finish
  finish-Keeps op size digest =
      Triple-bind {Q = λ _. Ready op size} (in_db (finish_staged around.staged op size digest)) _
        (Triple-in_db _ (λ w p. p)
          (λ w x db v e.
            let s = finish_staged_lem around.staged op size digest w.db db x e in
            (
              finish_staged-IsBooked around.staged op size digest w.db db x v e,
              rw s.6 (record {
                row = staged_row op size digest;
                found = ground arith;
                of_operation = refl;
                bytes = refl;
                is_staged = refl;
              }),
            )))
        λ _.
          Triple-bind {Q = Checked op size} (in_db (finish_check policy around.check op)) _
            (Triple-in_db _ (λ w p. p.0)
              (λ w x db v e.
                let (l, same) = finish_check_lem around.check policy op w.db db x e in
                rw same (v.0, v.1, l)))
            λ x.
              Triple-bind {Q = λ _. Checked op size x} (fails around.publish) _
                (Triple-fails _ around.publish (λ w p. p.0))
                λ _.
                  Triple-bind {Q = λ _. Checked op size x}
                    (in_fs (publish op.id op.owner_id op.file_id)) _
                    (Triple-in_fs _ (λ w p. p.0) (λ w a fs p e. p))
                    λ _.
                      Triple-bind {Q = λ _. Checked op size x} (fails around.finalize) _
                        (Triple-fails _ around.finalize (λ w p. p.0))
                        λ _.
                          Triple-bind {Q = λ _. Booked}
                            (in_db (finish_commit around.commit op size x.0 x.1)) _
                            (Triple-in_db _ (λ w p. p.0)
                              (λ w y db (v, s, l) e.
                                finish_commit-IsBooked around.commit op size x.0 x.1 s.row w.db db y
                                  v l s.found s.of_operation s.bytes s.is_staged e))
                            λ _. Keeps-done _

  sweep-Keeps :
      (op : Operation) (committed : Option Bool) → Keeps (sweep policy around op committed)
  sweep-Keeps op none = Keeps-done tt
  sweep-Keeps op (some true) =
      Triple-bind (fails around.clean) _ (Keeps-fails around.clean) λ _. Keeps-in_fs _
  sweep-Keeps op (some false) = Triple-bind (fails around.clean) _ (Keeps-fails around.clean) λ _.
      Triple-bind (in_fs (clean op.id op.owner_id op.file_id false)) _ (Keeps-in_fs _)
        λ _. Keeps-in_db _ (λ db a db' v e. clean_release-IsBooked around.release op db db' a v e)

  pub clean_up-Keeps : (op : Operation) → Keeps (clean_up policy around op)
  unfolding clean_up
  clean_up-Keeps op =
      Triple-bind (in_db (clean_mark around.mark op)) _
        (Keeps-in_db _ (λ db a db' v e. clean_mark-IsBooked around.mark op db db' a v e))
        (sweep-Keeps op)

pub result-same :
    (op owner : ℕ) (db db' : Db) (f : StoredFile) → result op owner db ≡ ok (f, db') → db ≡ db'
unfolding result
result-same op owner db db' f e = ground arith
