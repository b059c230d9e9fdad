-- ===== src/Storage/FileSystem.antt =====
-- The private file tree of backend/app/storage/filesystem.py: the staging area, the area of final
-- files and the inodes that their names link to. Directory handles, permissions and fsync have no
-- counterpart: a step either takes effect whole, or an error of the system comes first and nothing
-- happens (`fault`).
pub mod Safety
use fillable.Common.{
  ℕ, suc, Bool, ◌&&◌, Option, none, some, List, [], ◌++◌, ◌==◌, if◌then◌else◌, Tx, raise, pure,
  modify, ok, err,
}
use fillable.Storage.Schema.{Error, os_failure}

pub record Files : Type 0 where
  pub staging : ℕ → Option ℕ
  pub final : ℕ → ℕ → Option ℕ
  pub content : ℕ → List ℕ
  pub next_inode : ℕ

abbrev pub Fs : Type 0 → Type 0
Fs A = Tx Files Error A

abbrev pub set_staging : ℕ → Option ℕ → Files → Files
set_staging op v fs = record fs { staging = λ j. if op == j then v else fs.staging j }

abbrev pub set_final : ℕ → ℕ → Option ℕ → Files → Files
set_final owner file v fs = record fs {
  final = λ o j. if owner == o && file == j then v else fs.final o j;
}

-- An error that the system raises before the step has any effect.
abbrev pub fault : Option Error → Fs Unit
fault none = pure tt
fault (some e) = raise e

-- `stage`: O_CREAT | O_EXCL, a new empty file.
stage_new : ℕ → Option ℕ → Fs ℕ
stage_new op (some _) fs = err os_failure
stage_new op none fs = ok (
  fs.next_inode,
  record fs {
    staging = λ j. if op == j then some fs.next_inode else fs.staging j;
    content = λ j. if fs.next_inode == j then [] else fs.content j;
    next_inode = suc fs.next_inode;
  },
)

unfoldable pub stage : ℕ → Fs ℕ
unfolding stage_new
stage op fs = stage_new op (fs.staging op) fs

-- `stream.write` of a whole part to the staged inode.
unfoldable pub append : ℕ → List ℕ → Fs Unit
append inode bytes fs =
    ok (tt, record fs { content = λ j. if inode == j then fs.content j ++ bytes else fs.content j })

-- `os.link` refuses a missing source and an existing target.
link : ℕ → ℕ → Option ℕ → Option ℕ → Fs Unit
link owner file (some inode) none = modify (set_final owner file (some inode))
link owner file _ _ = raise os_failure

unfoldable pub publish : ℕ → ℕ → ℕ → Fs Unit
unfolding link
publish op owner file fs = link owner file (fs.staging op) (fs.final owner file) fs

-- `clean` with `committed=True`: drop the staging link of the same inode, keep the final file.
clean_committed : ℕ → Option ℕ → Option ℕ → Fs Unit
clean_committed op none target = pure tt
clean_committed op (some source) none = raise os_failure
clean_committed op (some source) (some retained) =
    if source == retained then modify (set_staging op none) else raise os_failure

-- `clean` with `committed=False`: drop both links, but a final file only if it is this inode.
clean_aborted : ℕ → ℕ → ℕ → Option ℕ → Option ℕ → Fs Unit
clean_aborted op owner file source none = modify (set_staging op none)
clean_aborted op owner file none (some target) = raise os_failure
clean_aborted op owner file (some source) (some target) =
    if source == target
    then modify (λ fs. set_staging op none (set_final owner file none fs))
    else raise os_failure

unfoldable pub clean : ℕ → ℕ → ℕ → Bool → Fs Unit
unfolding clean_committed clean_aborted
clean op owner file committed fs =
    if committed
    then clean_committed op (fs.staging op) (fs.final owner file) fs
    else clean_aborted op owner file (fs.staging op) (fs.final owner file) fs

-- `remove`: both links, whether they are there or not.
unfoldable pub remove : ℕ → ℕ → ℕ → Fs Unit
remove op owner file = modify (λ fs. set_staging op none (set_final owner file none fs))

-- `read`: the bytes of a final file.
unfoldable pub read : ℕ → ℕ → Fs (List ℕ)
read owner file fs = elim (fs.final owner file) [
  | none ↦ err os_failure
  | some inode ↦ ok (fs.content inode, fs)
]
