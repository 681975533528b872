-- ===== src/File.antt =====
-- kernel/file.c and kernel/sysfile.c: the table of open files with its reference counts, and the
-- descriptors of a process. A pointer to an entry of the table is its index.
pub mod Counts
mod Tests
pub mod Alloc
use xv.Panic.{Result, ok, panic, ◌>>=◌, ◌>>◌, panic_if}
use xv.Prelude.{
  ℕ, zero, suc, ◌+◌, ◌-◌, Bool, ◌||◌, not, Option, none, some, ltb, ◌==◌, if◌then◌else◌, update,
  List, [], ◌∷◌,
}

-- `NFILE` and `NOFILE`
abbrev pub nfile : ℕ
nfile = 100

abbrev pub nofile : ℕ
nofile = 16

pub data FileType : Type 0 where
  fd_none : FileType
  fd_pipe : FileType
  fd_inode : FileType
  fd_device : FileType

-- `struct file`, without the pointers to the pipe and the inode.
pub record File : Type 0 where
  pub type : FileType
  pub ref : ℕ
  pub readable : Bool
  pub writable : Bool
  pub off : ℕ

-- `ftable.file`, and the calling process's `ofile`.
pub record Files : Type 0 where
  pub file : ℕ → File
  pub ofile : ℕ → Option ℕ

-- The loop of `filealloc` from entry `f` on.
pub filealloc_loop : ℕ → ℕ → (ℕ → File) → Option (ℕ × (ℕ → File))
filealloc_loop zero f t = none
filealloc_loop (suc left) f t =
    let rest = filealloc_loop left (f + 1) t in
    if (t f).ref == 0 then some (f, update t f (record (t f) { ref = 1 })) else rest

pub filealloc : (ℕ → File) → Option (ℕ × (ℕ → File))
filealloc t = filealloc_loop nfile 0 t

pub filedup : ℕ → (ℕ → File) → Result (ℕ → File)
filedup f t = do
  panic_if ((t f).ref == 0) "filedup"
  ok (update t f (record (t f) { ref = (t f).ref + 1 }))

-- The table, and the entry whose pipe or inode is to be closed, if this was the last reference.
pub fileclose : ℕ → (ℕ → File) → Result ((ℕ → File) × Option File)
fileclose f t = do
  panic_if ((t f).ref == 0) "fileclose"
  (if ltb 0 ((t f).ref - 1)
      then ok (update t f (record (t f) { ref = (t f).ref - 1 }), none)
      else ok (
        update t f (record (t f) { type = FileType.fd_none; ref = 0 }),
        some (record (t f) { ref = 0 }),
      ))

-- The loop of `fdalloc` from `fd` on.
pub fdalloc_loop : ℕ → ℕ → ℕ → (ℕ → Option ℕ) → Option (ℕ × (ℕ → Option ℕ))
fdalloc_loop zero fd f o = none
fdalloc_loop (suc left) fd f o =
    let rest = fdalloc_loop left (fd + 1) f o in
    elim (o fd) [ none ↦ some (fd, update o fd (some f)) | some g ↦ rest ]

pub fdalloc : ℕ → (ℕ → Option ℕ) → Option (ℕ × (ℕ → Option ℕ))
fdalloc f o = fdalloc_loop nofile 0 f o

-- The file of a descriptor; a negative one is no number here.
pub argfd : ℕ → (ℕ → Option ℕ) → Option ℕ
argfd fd o = if not (ltb fd nofile) then none else o fd

-- The new descriptor, or none for -1.
pub sys_dup : ℕ → Files → Result (Option ℕ × Files)
sys_dup n s = elim (argfd n (s.ofile)) [
  | none ↦ ok (none, s)
  | some f ↦ elim (fdalloc f (s.ofile)) [
    | none ↦ ok (none, s)
    | some (fd, o) ↦ filedup f (s.file) >>= λ t. ok (some fd, record { file = t; ofile = o })
  ]
]

-- 0, or none for -1, and the entry to close.
pub sys_close : ℕ → Files → Result (Option ℕ × Option File × Files)
sys_close n s = elim (argfd n (s.ofile)) [
  | none ↦ ok (none, none, s)
  | some f ↦ fileclose f (s.file) >>= λ out.
      ok (some 0, out.1, record { file = out.0; ofile = update (s.ofile) n none })
]

-- The part of `sys_open` for the entry and the descriptor.
pub open_file : Bool → Bool → Bool → Files → Result (Option ℕ × Files)
open_file is_device readable writable s = elim (filealloc (s.file)) [
  | none ↦ ok (none, s)
  | some (f, t) ↦ elim (fdalloc f (s.ofile)) [
    | none ↦ fileclose f t >>= λ out. ok (none, record s { file = out.0 })
    | some (fd, o) ↦ ok (
      some fd,
      record {
        file = update t f (record (t f) {
          type = if is_device then FileType.fd_device else FileType.fd_inode;
          off = if is_device then (t f).off else 0;
          readable = readable;
          writable = writable;
        });
        ofile = o;
      },
    )
  ]
]

-- The system calls of a process on its descriptors, one after the other.
pub data FileCall : Type 0 where
  dup : (n : ℕ) → FileCall
  close : (n : ℕ) → FileCall
  open_new : (is_device readable writable : Bool) → FileCall

pub file_call : FileCall → Files → Result Files
file_call (dup n) s = sys_dup n s >>= λ out. ok (out.1)
file_call (close n) s = sys_close n s >>= λ out. ok (out.2)
file_call (open_new is_device readable writable) s =
    open_file is_device readable writable s >>= λ out. ok (out.1)

pub file_calls : List FileCall → Files → Result Files
file_calls [] s = ok s
file_calls (c ∷ cs) s = file_call c s >>= λ s'. file_calls cs s'
