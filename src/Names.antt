-- ===== src/Names.antt =====
-- kernel/fs.c: directories and path names. A path is the list of its character codes up to the NUL, a
-- pointer into it is the text from there on, and a directory is the list of its entries.
mod Split
mod Resolve
mod Dir
mod Tests
use xv.Prelude.{
  ℕ, zero, suc, ◌+◌, ◌-◌, Bool, true, false, not, ◌&&◌, Option, none, some, List, [], ◌∷◌, ◌++◌,
  ◌==◌, if◌then◌else◌, update, take, length,
}
use xv.Prelude.Int.{ℤ, pos, negsuc}
use xv.Panic.{Result, ok, panic, ◌>>=◌, ◌>>◌, panic_if}

abbrev pub dirsiz : ℕ
dirsiz = 14

-- '/'
abbrev pub slash : ℕ
slash = 47

abbrev pub Text : Type 0
Text = List ℕ

-- `while(*path == '/') path++;`
pub skip_slashes : Text → Text
skip_slashes [] = []
skip_slashes (c ∷ s) = let rest = skip_slashes s in if c == slash then rest else c ∷ s

-- `while(*path != '/' && *path != 0) path++;`, and what it passed over
pub scan_elem : Text → Text × Text
scan_elem [] = ([], [])
scan_elem (c ∷ s) =
    let (word, rest) = scan_elem s in if c == slash then ([], c ∷ s) else (c ∷ word, rest)

-- The name and the path after it; `none` where there is no name. The buffer holds `DIRSIZ` bytes.
pub skipelem : Text → Option (Text × Text)
unfolding skip_slashes scan_elem
skipelem path =
    let (word, rest) = scan_elem (skip_slashes path) in
    elim (skip_slashes path) [ [] ↦ none | c ∷ s ↦ some (take dirsiz word, skip_slashes rest) ]

-- `namecmp(s, t) == 0`, of texts without NUL
pub same_name : Text → Text → Bool
same_name [] [] = true
same_name (c ∷ s) (d ∷ t) = c == d && same_name s t
same_name s t = false

pub namecmp : Text → Text → Bool
unfolding same_name
namecmp s t = same_name (take dirsiz s) (take dirsiz t)

pub record Dirent : Type 0 where
  pub inum : ℕ
  pub name : Text

-- The inode number of the first entry in use that has the name; 0 is an entry that is not in use.
pub dirlookup : List Dirent → Text → Option ℕ
unfolding namecmp
dirlookup [] name = none
dirlookup (de ∷ dir) name =
    let rest = dirlookup dir name in
    if de.inum == 0 then rest else if namecmp name de.name then some de.inum else rest

-- The loop that looks for an empty entry, and the entry written there: at the end if all are in use.
pub put_entry : List Dirent → Dirent → List Dirent
put_entry [] new = new ∷ []
put_entry (de ∷ dir) new =
    let rest = put_entry dir new in if de.inum == 0 then new ∷ dir else de ∷ rest

-- Where the disk has room for the entry, and for an inode number below 2^16.
pub dirlink : List Dirent → Text → ℕ → ℤ × List Dirent
unfolding dirlookup put_entry
dirlink dir name inum = elim (dirlookup dir name) [
  | some found ↦ (negsuc 0, dir)
  | none ↦ (pos 0, put_entry dir (record { inum = inum; name = take dirsiz name }))
]

-- What `namex` reads of the file system: which inodes are directories, and their entries.
pub record Tree : Type 0 where
  pub is_dir : ℕ → Bool
  pub entries : ℕ → List Dirent

-- The references to each inode: `iget` and `idup` add one, `iput` drops one.
abbrev pub Refs : Type 0
Refs = ℕ → ℕ

pub get_ref : ℕ → Refs → Refs
get_ref i refs = update refs i (refs i + 1)

pub put_ref : ℕ → Refs → Refs
put_ref i refs = update refs i (refs i - 1)

abbrev pub ends_here : Text → Bool
ends_here [] = true
ends_here (c ∷ s) = false

-- The loop of `namex` at the inode `ip`, for at most so many names.
pub namex_loop : ℕ → Tree → Bool → ℕ → Text → Refs → Option ℕ × Refs
unfolding skipelem dirlookup get_ref put_ref
namex_loop zero fs parent ip path refs = (none, refs)
namex_loop (suc fuel) fs parent ip path refs = elim (skipelem path) [
  | none ↦ if parent then (none, put_ref ip refs) else (some ip, refs)
  | some (name, rest) ↦
      if not (fs.is_dir ip)
      then (none, put_ref ip refs)
      else if parent && ends_here rest
      then (some ip, refs)
      else elim (dirlookup (fs.entries ip) name) [
        | none ↦ (none, put_ref ip refs)
        | some next ↦ namex_loop fuel fs parent next rest (put_ref ip (get_ref next refs))
      ]
]

abbrev pub starts_at_root : Text → Bool
starts_at_root [] = false
starts_at_root (c ∷ s) = c == slash

-- The name that `nameiparent` is given, and the panic of `iget` where its table is full, are left out.
-- Each round takes a character, so the length of the path and one round more are enough.
pub namex : Tree → Bool → (root cwd : ℕ) → Text → Refs → Option ℕ × Refs
unfolding namex_loop get_ref
namex fs parent root cwd path refs =
    let ip = if starts_at_root path then root else cwd in
    namex_loop (length path + 1) fs parent ip path (get_ref ip refs)
