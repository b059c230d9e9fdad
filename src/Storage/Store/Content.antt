-- ===== src/Storage/Store/Content.antt =====
-- What `store` leaves behind when it succeeds: the request's row, the file's row and its bytes.
use fillable.Common.{ℕ, ◌≡◌, refl, ◌∙◌, some, length}
use fillable.Storage.Schema.{FileState}
use fillable.Storage.FileSystem.{publish}
use fillable.Storage.Service.{Policy, Operation}
use fillable.Storage.Reserving.{Request}
use fillable.Storage.Finishing.{finish_staged, finish_check, finish_commit, is_committed}
use fillable.Storage.World.{World, in_db, in_fs}
use fillable.Storage.World.Triple.{Triple, Triple-bind, Triple-done, Triple-in_db, Triple-in_fs}
use fillable.Storage.Accounting.Shapes.{finish_check_lem}
use fillable.Storage.Store.Held.{Held, HasResult, finish_staged-Held, finish_commit-Held}
use fillable.Storage.Store.{Surroundings, Progress, fails, finish}
use fillable.Storage.Store.Writing.{publish_lem, fails-Triple, result_of, IsWriting}

module _ (request : Request) (op : Operation) (inode : ℕ) where
  -- The request's row is committed, the file's row is ready, and its name links the inode.
  pub record IsKept (p : Progress) (digest : ℕ) (w : World) : Type 0 where
    pub held : Held request op is_committed w.db
    pub file : HasResult op FileState.ready p.size digest w.db
    pub link : w.files.final op.owner_id op.file_id ≡ some inode
    pub bytes : w.files.content inode ≡ p.hashed
    pub size : p.size ≡ length p.hashed

  abbrev StagedRows : Progress → ℕ → World → Type 0
  StagedRows p digest w =
      IsWriting request op inode p w × HasResult op FileState.staged p.size digest w.db

  -- After the publication the file's name links the inode.
  abbrev Published : Progress → ℕ → World → Type 0
  Published p digest w = StagedRows p digest w × (w.files.final op.owner_id op.file_id ≡ some inode)

  module _ (policy : Policy) (around : Surroundings) where
    pub finish-Triple :
        (p : Progress) (digest : ℕ)
        → Triple
            (IsWriting request op inode p)
            (finish policy around op p.size digest)
            (λ f w. IsKept p digest w × (f ≡ result_of op p digest))
            (λ _. Unit)
    unfolding finish
    finish-Triple p digest =
        Triple-bind {Q = λ _. StagedRows p digest}
          (in_db (finish_staged around.staged op p.size digest)) _
          (Triple-in_db _ (λ w h. tt)
            (λ w x db h e.
              let s =
                finish_staged-Held policy around.staged request op p.size digest w.db db x h.held
                  e in
              (record { held = s.0; link = h.link; bytes = h.bytes; size = h.size }, s.1)))
          λ _.
            Triple-bind {Q = λ x. StagedRows p digest} (in_db (finish_check policy around.check op))
              _
              (Triple-in_db _ (λ w h. tt)
                (λ w x db h e. rw (finish_check_lem around.check policy op w.db db x e).1 h))
              λ x.
                Triple-bind {Q = λ _. StagedRows p digest} (fails around.publish) _
                  (fails-Triple around.publish (λ w h. tt))
                  λ _.
                    Triple-bind {Q = λ _. Published p digest}
                      (in_fs (publish op.id op.owner_id op.file_id)) _
                      (Triple-in_fs _ (λ w h. tt)
                        (λ w a fs h e.
                          let l =
                            publish_lem op.id op.owner_id op.file_id inode w.files fs a h.0.link
                              e in
                          (
                            (
                              record {
                                held = h.0.held;
                                link = l.0;
                                bytes = l.2 ∙ h.0.bytes;
                                size = h.0.size;
                              },
                              h.1,
                            ),
                            l.1,
                          )))
                      λ _.
                        Triple-bind {Q = λ _. Published p digest} (fails around.finalize) _
                          (fails-Triple around.finalize (λ w h. tt))
                          λ _.
                            Triple-bind {Q = λ _. IsKept p digest}
                              (in_db (finish_commit around.commit op p.size x.0 x.1)) _
                              (Triple-in_db _ (λ w h. tt)
                                (λ w y db h e.
                                  let s =
                                    finish_commit-Held policy around.commit request op p.size digest
                                      x.0 x.1 w.db db y h.0.0.held h.0.1 e in
                                  record {
                                    held = s.0;
                                    file = s.1;
                                    link = h.1;
                                    bytes = h.0.0.bytes;
                                    size = h.0.0.size;
                                  }))
                              λ _. Triple-done _ (λ w h. (h, refl))
