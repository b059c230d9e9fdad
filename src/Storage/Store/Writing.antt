-- ===== src/Storage/Store/Writing.antt =====
-- What the writes of `store` leave: the bytes of the chunks in the staged inode
-- (backend/app/storage/service.py).
use fillable.Common.{
  ℕ, zero, suc, ◌+◌, ◌≤◌, ◌≡◌, refl, ◌∙◌, Bool, true, false, Option, none, some, List, [], ◌∷◌,
  ◌++◌, ok, arith, if◌then◌else◌, length, length-append, drop, take-append-drop, length-drop,
  flatten, ltb, sym, ap,
}
use mathlib.Core.List.{append_assoc, append-nil}
use fillable.Storage.Schema.{Error, file_too_large}
use fillable.Storage.FileSystem.{Files, stage, append, publish, clean}
use fillable.Storage.Service.{Policy, Env, Operation, StoredFile}
use fillable.Storage.Reserving.{Request, advance}
use fillable.Storage.World.{World, Method, in_db, in_fs}
use fillable.Storage.World.Triple.{
  Triple, Triple-bind, Triple-done, Triple-throw, Triple-in_db, Triple-in_fs,
}
use fillable.Storage.Store.Held.{Held, any_state, advance-Held}
use fillable.Storage.Store.{
  Moment, Progress, chunk_bytes, parts_of, fails, write_part, write_parts, write_chunks,
}

-- Cutting a chunk into parts loses nothing.
flatten-parts_of :
    (fuel : ℕ) (bytes : List ℕ) → length bytes ≤ fuel → flatten (parts_of fuel bytes) ≡ bytes
unfolding parts_of
flatten-parts_of zero [] h = refl
flatten-parts_of zero (b ∷ bs) h = elim h [ ]
flatten-parts_of (suc fuel) [] h = refl
flatten-parts_of (suc fuel) (b ∷ bs) h =
    rw
      (flatten-parts_of fuel (drop chunk_bytes (b ∷ bs))
        (omega (arith, length-drop chunk_bytes (b ∷ bs))))
      (take-append-drop chunk_bytes (b ∷ bs))

pub fact-Triple :
    {A K : Type 0} {P : World → Type 0} {m : Method A} {Q : A → World → Type 0} {E : World → Type 0}
    → (K → Triple P m Q E)
    → Triple (λ w. P w × K) m Q E
fact-Triple f = record { at = λ w h. (f h.1).at w h.0 }

append_lem :
    (op inode : ℕ) (part : List ℕ) (fs fs' : Files) (x : Unit)
    → append inode part fs ≡ ok (x, fs')
    → (fs'.staging op ≡ fs.staging op) × (fs'.content inode ≡ fs.content inode ++ part)
unfolding append
append_lem op inode part fs fs' x e = ground arith

pub stage_lem :
    (op inode : ℕ) (fs fs' : Files)
    → stage op fs ≡ ok (inode, fs')
    → (fs'.staging op ≡ some inode) × (fs'.content inode ≡ [])
unfolding stage
stage_lem op inode fs fs' e = ground arith

pub publish_lem :
    (op owner file inode : ℕ) (fs fs' : Files) (x : Unit)
    → fs.staging op ≡ some inode
    → publish op owner file fs ≡ ok (x, fs')
    → (fs'.staging op ≡ some inode)
      × (fs'.final owner file ≡ some inode)
      × (fs'.content inode ≡ fs.content inode)
unfolding publish
publish_lem op owner file inode fs fs' x l e = ground arith

pub clean_lem :
    (op owner file inode : ℕ) (fs fs' : Files) (x : Unit)
    → clean op owner file true fs ≡ ok (x, fs')
    → (fs'.final owner file ≡ fs.final owner file) × (fs'.content inode ≡ fs.content inode)
unfolding clean
clean_lem op owner file inode fs fs' x e = ground arith

pub fails-Triple :
    {P E : World → Type 0} (x : Option Error)
    → ((w : World) → P w → E w)
    → Triple P (fails x) (λ _. P) E
fails-Triple none h = Triple-done tt (λ w p. p)
fails-Triple (some e) h = Triple-throw e h

abbrev pub result_of : Operation → Progress → ℕ → StoredFile
result_of op p digest = record {
  id = op.file_id;
  owner_id = op.owner_id;
  size_bytes = p.size;
  digest = digest;
}

module _ (request : Request) (op : Operation) (inode : ℕ) where
  -- The staged inode holds what was hashed so far.
  pub record IsWriting (p : Progress) (w : World) : Type 0 where
    pub held : Held request op any_state w.db
    pub link : w.files.staging op.id ≡ some inode
    pub bytes : w.files.content inode ≡ p.hashed
    pub size : p.size ≡ length p.hashed

  abbrev pub Wrote : List ℕ → Progress → World → Type 0
  Wrote bytes p w = IsWriting p w × (p.hashed ≡ bytes)

  module _ (policy : Policy) (around : ℕ → Moment) where
    advance-Triple :
        (n : ℕ) (p : Progress) (size : ℕ) (written : Bool) (env : Env)
        → Triple
            (IsWriting p)
            (in_db (advance policy env op size written))
            (λ _. IsWriting p)
            (λ _. Unit)
    advance-Triple n p size written env =
        Triple-in_db _ (λ w h. tt)
          (λ w a db h e. record {
            held = advance-Held policy env request op size written w.db db a h.held e;
            link = h.link;
            bytes = h.bytes;
            size = h.size;
          })

    write_part-Triple :
        (n : ℕ) (p : Progress) (part : List ℕ)
        → Triple
            (IsWriting p)
            (write_part policy op around inode n p part)
            (Wrote (p.hashed ++ part))
            (λ _. Unit)
    unfolding write_part
    write_part-Triple n p part =
        Triple-bind _ _ (advance-Triple n p (p.size + length part) false (around n).before) λ _.
          Triple-bind _ _ (fails-Triple (around n).write (λ w h. tt)) λ _.
            Triple-bind
              {Q = λ _.
                IsWriting (record { size = p.size + length part; hashed = p.hashed ++ part })}
              (in_fs (append inode part)) _
              (Triple-in_fs _ (λ w h. tt)
                (λ w a fs h e.
                  let l = append_lem op.id inode part w.files fs a e in
                  record {
                    held = h.held;
                    link = l.0 ∙ h.link;
                    bytes = ground (arith, l, h.bytes);
                    size = omega (arith, length-append p.hashed part, h.size);
                  }))
              λ _.
                Triple-bind _ _ (advance-Triple n _ (p.size + length part) true (around n).after)
                  λ _. Triple-done _ (λ w h. (h, refl))

    write_parts-Triple :
        (n : ℕ) (p : Progress) (parts : List (List ℕ)) (target : List ℕ)
        → p.hashed ++ flatten parts ≡ target
        → Triple
            (IsWriting p)
            (write_parts policy op around inode n p parts)
            (λ r. Wrote target r.1)
            (λ _. Unit)
    unfolding write_parts
    write_parts-Triple n p [] target e = Triple-done _ (λ w h. (h, sym (append-nil _) ∙ e))
    write_parts-Triple n p (part ∷ parts) target e =
        Triple-bind _ _ (write_part-Triple n p part) λ r. fact-Triple λ q.
          write_parts-Triple (suc n) r parts target
            (ap (λ l. l ++ flatten parts) q ∙ append_assoc p.hashed part (flatten parts) ∙ e)

    pub write_chunks-Triple :
        (n : ℕ) (p : Progress) (chunks : List (List ℕ)) (target : List ℕ)
        → p.hashed ++ flatten chunks ≡ target
        → Triple
            (IsWriting p)
            (write_chunks policy op around inode n p chunks)
            (Wrote target)
            (λ _. Unit)
    unfolding write_chunks
    write_chunks-Triple n p [] target e = Triple-done _ (λ w h. (h, sym (append-nil _) ∙ e))
    write_chunks-Triple n p (chunk ∷ chunks) target e =
        Triple-bind _ _
          (fails-Triple
            (if ltb policy.file_bytes (p.size + length chunk) then some file_too_large else none)
            (λ w h. tt))
          λ _.
            Triple-bind _ _
              (write_parts-Triple n p (parts_of (length chunk) chunk) (p.hashed ++ chunk)
                (ap (λ l. p.hashed ++ l) (flatten-parts_of (length chunk) chunk (omega arith))))
              λ r. fact-Triple λ q.
                write_chunks-Triple r.0 r.1 chunks target (
                  ap (λ l. l ++ flatten chunks) q
                  ∙ append_assoc p.hashed chunk (flatten chunks)
                  ∙ e)
