-- ===== src/Fs/Tests.antt =====
-- A disk of 20 blocks whose map is block 2, and a file of 5 bytes in block 3.
use xv.Prelude.{
  ℕ, zero, suc, ◌+◌, ◌*◌, ◌%◌, ◌^◌, ◌≤◌, ◌<◌, ◌≡◌, refl, sym, ◌∙◌, ◌≢◌, ◌⊎◌, inl, inr, true, false,
  arith, ltb, ◌&&◌, ◌==◌, if◌then◌else◌, Bool-cases, Option, some, none, sym, ◌∙◌,
}
use xv.Panic.{ok, panic, Result}
use xv.Fs.{
  Inode, Superblock, Blocks, ndirect, maxfile, bsize, bmap, itrunc, balloc, balloc_loop,
  balloc_scan, mark_used, bzero,
}
use mathlib.Core.Path.{subst}
use xv.Fs.Bitmap.{IsFs, is_used}
use xv.Fs.Bmap.{block_of, IsInode, Mapped, bmap_lem}
use xv.Fs.Contents.{IsFile, Placed}
use xv.Fs.WriteBlock.{Wrote}
use xv.Fs.Write.{writei-Wrote}
use xv.Fs.Read.{ReadEnd, readi-ReadEnd}
use xv.Fs.Roundtrip.{readi-writei}
use xv.Fs.Truncate.{Truncated, itrunc-Truncated}
use xv.Fs.Transfer.{readi, writei, writei_loop}

abbrev sb : Superblock
sb = record { size = 20; bmapstart = 2 }

abbrev disk : Blocks
disk b k = if b == 2 && k == 0 then 15 else if b == 3 && ltb k 5 then k + 65 else 0

abbrev file : Inode
file = record { addrs = λ i. if i == 0 then 3 else 0; size = 5 }

abbrev user : ℕ → ℕ
user a = a % 256

abbrev copies_all : ℕ → ℕ → ℕ
copies_all a m = m

meta_used : (b : ℕ) → b ≤ 2 → is_used sb disk b ≡ true
meta_used zero le = refl
meta_used (suc zero) le = refl
meta_used (suc (suc zero)) le = refl
meta_used (suc (suc (suc b))) le = absurd (omega arith)

disk-IsFs : IsFs sb disk
disk-IsFs = record { bytes = λ b k. ground arith; fits = omega arith; meta_used = meta_used }

file-IsInode : IsInode sb file disk
file-IsInode = record {
  indirect_data = λ ne. absurd (ne refl);
  indirect_fits = omega arith;
  indirect_used = λ ne. absurd (ne refl);
}

-- Only block 0 of the file is there.
one_block : (k : ℕ) → block_of file disk k ≡ (if k == 0 then 3 else 0)
one_block k = elim (Bool-cases (ltb k ndirect)) [
  | inl direct ↦ rw direct
  | inr far ↦ let other : (k == 0) ≡ false = ground arith in rw (far, other)
]

at_zero : (k : ℕ) → block_of file disk k ≢ 0 → k ≡ 0
at_zero k ne = elim (Bool-cases (k == 0)) [
  | inl here ↦ ground arith
  | inr other ↦ absurd (ne (one_block k ∙ rw other))
]

file-IsFile : IsFile sb file disk
file-IsFile = record {
  inode = file-IsInode;
  placed = λ k lt ne.
      subst (λ i. Placed sb file disk (block_of file disk i)) (sym (at_zero k ne))
        (record {
          is_data = omega arith;
          in_range = omega arith;
          used = refl;
          direct = λ e. omega arith;
        });
  apart = λ j k lt_j lt_k distinct ne e.
      let first = at_zero j ne in distinct (first ∙ sym (at_zero k (λ z. ne (e ∙ z))));
}

abbrev from_ok {ℓ} : {A : Type ℓ} → A → Result A → A
from_ok a (ok b) = b
from_ok a (panic e) = a

-- 1030 bytes written at the end of the file, into block 3 and a block that is taken for them.
abbrev written : Option ℕ × Inode × Blocks
written = from_ok (none, file, disk) (writei user copies_all sb file disk 300 5 1030)

bmap_lem_example :
    ((maxfile ≤ 15) × (bmap sb file 15 disk ≡ panic "bmap: out of range"))
    ⊎ ((addr : ℕ) × (ip' : Inode) × (d' : Blocks) × (bmap sb file 15 disk ≡ ok (addr, ip', d'))
        × Mapped sb file 15 disk addr ip' d')
bmap_lem_example = bmap_lem sb (omega arith) file 15 disk disk-IsFs file-IsInode

writei-Wrote_example :
    ((((5 < 5) ⊎ (2 ^ 32 ≤ 5 + 1030)) ⊎ (maxfile * bsize < 5 + 1030))
      × (writei user copies_all sb file disk 300 5 1030 ≡ ok (none, file, disk)))
    ⊎ ((5 + 1030 ≤ maxfile * bsize)
        × ((t : ℕ) × (ip' : Inode) × (d' : Blocks) × (writei user copies_all sb file disk 300 5 1030
              ≡ ok (some t, (if ltb 5 (5 + t) then record ip' { size = 5 + t } else ip'), d'))
            × Wrote user copies_all sb file disk 300 5 1030 t ip' d'))
writei-Wrote_example =
    writei-Wrote user copies_all sb (omega arith) (λ a. omega arith) file disk 300 5 1030 disk-IsFs
      file-IsFile (omega arith) (omega arith)

readi-ReadEnd_example :
    (((5 < 1) ⊎ (2 ^ 32 ≤ 1 + 10))
      × (readi copies_all sb file disk user 700 1 10 ≡ ok (some 0, file, disk, user)))
    ⊎ ReadEnd copies_all sb file disk user 700 1 4 (readi copies_all sb file disk user 700 1 10)
readi-ReadEnd_example =
    readi-ReadEnd copies_all sb (omega arith) file disk user 700 1 10 disk-IsFs file-IsFile
      (omega arith) (omega arith) (omega arith)

readi-writei_example :
    (ip'' : Inode) × (d'' : Blocks) × (mem' : ℕ → ℕ) × (readi copies_all sb
        (written.1)
        (written.2)
        user
        700
        5
        1030
      ≡ ok (some 1030, ip'', d'', mem'))
    × ((i : ℕ) → i < 1030 → mem' (700 + i) ≡ user (300 + i))
    × ((a : ℕ) → (a < 700) ⊎ (700 + 1030 ≤ a) → mem' a ≡ user a)
unfolding writei writei_loop bmap balloc balloc_loop balloc_scan mark_used bzero
readi-writei_example =
    readi-writei user copies_all copies_all sb (omega arith) (λ a. omega arith) (λ a m. omega arith)
      file (written.1) disk (written.2) user 300 700 5 1030 disk-IsFs file-IsFile (omega arith)
      (omega arith) (omega arith) refl

itrunc-Truncated_example :
    (ip' : Inode) × (d' : Blocks) × (itrunc sb file disk ≡ ok (ip', d'))
    × Truncated sb file disk ip' d'
itrunc-Truncated_example = itrunc-Truncated sb file disk disk-IsFs file-IsFile
