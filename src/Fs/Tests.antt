-- ===== src/Fs/Tests.antt =====
-- A disk of 64 blocks: the inodes in block 2, the bitmap in block 3, and in block 4 the root
-- directory, with the names `.` and `a`.
use nice_system_calls.Common.{
  ℕ, zero, suc, ◌/◌, ◌<◌, ◌≤◌, ◌≡◌, ◌≢◌, refl, ap, sym, subst, [], ◌∷◌, true, false, Option, some,
  none, arith, if◌then◌else◌, ◌==◌, get_elem?, replicate, window, Returns, ok, panic, ◌>>=◌,
}
use nice_system_calls.Memory.{Memory}
use nice_system_calls.Kalloc.{read_word}
use nice_system_calls.Fs.{Fs, Inode, Superblock, readsb}
use nice_system_calls.Fs.Alloc.{balloc, bfree}
use nice_system_calls.Fs.Alloc.Search.{bit_of}
use nice_system_calls.Fs.Alloc.Bitmap.{Layout, Allocated, balloc_lem, bfree-balloc}
use nice_system_calls.Fs.Inodes.{find_inode, use_slot, iget, iupdate, read_inode}
use nice_system_calls.Fs.Inodes.Dinode.{Fits, done, word, read_inode-iupdate}
use nice_system_calls.Fs.Inodes.Slots.{NoTwins}
use nice_system_calls.Fs.Inodes.Sharing.{empty, goes, gets, cache-NoTwins}
use nice_system_calls.Fs.Content.{Devsw, readi, writei}
use nice_system_calls.Fs.Content.Writing.{FileBlocks}
use nice_system_calls.Fs.Content.RoundTrip.{readi-writei}
use nice_system_calls.Fs.Content.Mapping.{block_of, Mapped}
use nice_system_calls.Fs.Content.Reading.{byte_of, AllMapped, readi_lem}
use nice_system_calls.Fs.Dir.{dirlookup}
use nice_system_calls.Fs.Dir.Names.{Directory, entries, find_name, found_inode, dirlookup-Directory}
use nice_system_calls.Fs.FsPath.{skipelem, skip_slashes, take_element, walk}
use nice_system_calls.Fs.FsPath.Elements.{elements, components, skipelem_lem}
use nice_system_calls.Fs.FsPath.Walk.{walk-ends}

abbrev byte : ℕ → ℕ → Memory → Memory
byte a v m x = if x == a then v else m x

abbrev disk : ℕ → Memory
disk b =
    if b == 1
    then byte 0 64 (byte 4 50 (byte 8 16 (byte 16 2 (byte 20 2 (byte 24 3 (λ x. 0))))))
    else if b == 2
    then byte 64 1 (byte 70 1 (byte 72 32 (byte 76 4 (λ x. 0))))
    else if b == 3
    then byte 0 31 (λ x. 0)
    else if b == 4
    then byte 0 1 (byte 2 46 (byte 16 2 (byte 18 97 (λ x. 0))))
    else (λ x. 0)

abbrev super : Superblock
super = record {
  size = 64;
  nblocks = 50;
  ninodes = 16;
  nlog = 0;
  logstart = 2;
  inodestart = 2;
  bmapstart = 3;
}

abbrev unused : Inode
unused = record {
  dev = 0;
  inum = 0;
  refs = 0;
  locked = false;
  valid = false;
  type = 0;
  major = 0;
  minor = 0;
  nlink = 0;
  size = 0;
  addrs = replicate 13 0;
}

abbrev root : Inode
root = record unused {
  dev = 1;
  inum = 1;
  refs = 1;
  locked = true;
  valid = true;
  type = 1;
  nlink = 1;
  size = 32;
  addrs = 4 ∷ replicate 12 0;
}

abbrev fs : Fs
fs = record { blocks = disk; logged = []; sb = super; inodes = root ∷ unused ∷ unused ∷ [] }

taken : (c : ℕ) → c ≤ 3 → bit_of c fs ≢ 0
taken zero h e = absurd (omega arith)
taken (suc zero) h e = absurd (omega arith)
taken (suc (suc zero)) h e = absurd (omega arith)
taken (suc (suc (suc zero))) h e = absurd (omega arith)
taken (suc (suc (suc (suc c)))) h e = absurd (omega arith)

layout : Layout fs
unfolding readsb read_word
layout = record { super = refl; boot = omega arith; taken = taken }

balloc_example : Returns (λ r. Allocated fs r.0 r.1) (balloc fs)
balloc_example = balloc_lem fs 9 layout (omega arith) refl

bfree_example :
    Returns (λ s'. (c : ℕ) → c < 64 → bit_of c s' ≡ bit_of c fs) (balloc fs >>= λ r. bfree r.0 r.1)
bfree_example = bfree-balloc fs 9 layout (omega arith) refl

root-Fits : Fits root
root-Fits = record {
  type = omega arith;
  major = omega arith;
  minor = omega arith;
  nlink = omega arith;
  size = omega arith;
  addrs = word (omega arith) (
      word (omega arith) (
        word (omega arith) (
          word (omega arith) (
            word (omega arith) (
              word (omega arith) (
                word (omega arith) (
                  word (omega arith) (
                    word (omega arith) (
                      word (omega arith) (
                        word (omega arith) (word (omega arith) (word (omega arith) done))))))))))));
  count = refl;
}

iupdate_example :
    Returns
      (λ s'.
        read_inode (record unused { inum = 1 }) s'
        ≡ ok (record root { dev = 0; refs = 0; locked = false }))
      (iupdate 0 fs)
iupdate_example =
    read_inode-iupdate 0 root (record unused { inum = 1 }) fs refl root-Fits
      (λ e. absurd (omega arith)) refl refl

unfoldable refs_at : (o : Option Inode) → ℕ
refs_at none = 0
refs_at (some ip) = ip.refs

-- Only the first entry is in use.
used_first : (i : ℕ) (ip : Inode) → get_elem? fs.inodes i ≡ some ip → 0 < ip.refs → i ≡ 0
unfolding refs_at
used_first zero ip e h = refl
used_first (suc zero) ip e h = absurd (omega (arith, ap refs_at e))
used_first (suc (suc zero)) ip e h = absurd (omega (arith, ap refs_at e))
used_first (suc (suc (suc i))) ip e h = absurd (grind arith)

root_only : NoTwins fs.inodes
root_only i j ip jp gi gj ri rj d n = omega (arith, used_first i ip gi ri, used_first j jp gj rj)

abbrev start : Fs
start = record fs { inodes = unused ∷ unused ∷ [] }

abbrev first_get : Fs
first_get = record fs { inodes = record unused { dev = 1; inum = 7; refs = 1 } ∷ unused ∷ [] }

start-unused : (i : ℕ) (ip : Inode) → get_elem? start.inodes i ≡ some ip → ip.refs ≡ 0
start-unused zero ip e = ap (λ o. elim o [ none ↦ 0 | some x ↦ x.refs ]) (sym e)
start-unused (suc zero) ip e = ap (λ o. elim o [ none ↦ 0 | some x ↦ x.refs ]) (sym e)
start-unused (suc (suc i)) ip e = absurd (grind arith)

first_get_lem : iget 1 7 start ≡ ok (0, first_get)
unfolding iget use_slot find_inode
first_get_lem = refl

cache_example : NoTwins first_get.inodes
cache_example = cache-NoTwins first_get (goes (empty start start-unused) (gets 1 7 0 first_get_lem))

abbrev no_devices : Devsw
no_devices = record { read = λ major. none; write = λ major. none }

first_block : Mapped root fs 0
first_block = record {
  range = omega arith;
  own = λ (e : 4 ≡ 0). absurd (omega arith);
  indirect = λ h. absurd (omega arith);
}

root-AllMapped : AllMapped root fs
root-AllMapped k lt =
    let at_zero : 0 ≡ k / 512 = omega (arith, lt) in subst (Mapped root fs) at_zero first_block

readi_example : readi no_devices 0 16 40 fs ≡ ok (some (window (byte_of root fs) 16 16), fs)
readi_example =
    readi_lem no_devices 0 16 40 root fs refl (λ e. absurd (omega arith)) root-AllMapped
      (omega arith)

root-Directory : Directory 0 2 root fs
root-Directory = record {
  at = refl;
  type = refl;
  size = refl;
  small = omega arith;
  mapped = root-AllMapped;
}

dirlookup_example :
    dirlookup no_devices 0 (97 ∷ []) fs
    ≡ found_inode 1 fs (find_name (97 ∷ []) (entries root fs 0 2) 0)
dirlookup_example = dirlookup-Directory no_devices 0 2 root fs (97 ∷ []) root-Directory

skipelem_example :
    elements 8 (47 ∷ 97 ∷ 47 ∷ 47 ∷ 98 ∷ 98 ∷ 47 ∷ [])
    ≡ components (47 ∷ 97 ∷ 47 ∷ 47 ∷ 98 ∷ 98 ∷ 47 ∷ [])
skipelem_example = skipelem_lem (47 ∷ 97 ∷ 47 ∷ 47 ∷ 98 ∷ 98 ∷ 47 ∷ [])

two_elements : elements 8 (47 ∷ 97 ∷ 47 ∷ 47 ∷ 98 ∷ 98 ∷ 47 ∷ []) ≡ (97 ∷ []) ∷ (98 ∷ 98 ∷ []) ∷ []
unfolding elements skipelem skip_slashes take_element
two_elements = refl

walk_example :
    walk no_devices (panic "fuel") 3 false 0 [] (97 ∷ []) fs
    ≡ walk no_devices (panic "out") 9 false 0 [] (97 ∷ []) fs
walk_example =
    walk-ends no_devices (panic "fuel") (panic "out") false 3 9 (97 ∷ []) 0 [] fs (omega arith)
      (omega arith)

first_only : FileBlocks root 1 fs
first_only = record {
  mapped = λ bn l. subst (Mapped root fs) (omega (arith, l)) first_block;
  distinct = λ bn bn' l l' e. omega (arith, l, l');
  not_indirect = λ bn l.
      (let z : 0 ≡ bn = omega (arith, l) in
        subst (λ k. block_of root fs k ≢ 0) z (λ (e : 4 ≡ 0). absurd (omega arith)));
  not_inode = λ bn l.
      (let z : 0 ≡ bn = omega (arith, l) in
        subst (λ k. block_of root fs k ≢ 2) z (λ (e : 4 ≡ 2). absurd (omega arith)));
  apart = λ (e : 0 ≡ 2). absurd (omega arith);
}

writei_example :
    Returns
      (λ r. r.0 ≡ some (7 ∷ 8 ∷ 9 ∷ []))
      (writei no_devices 0 (7 ∷ 8 ∷ 9 ∷ []) 30 fs >>= λ w. readi no_devices 0 30 3 w.1)
writei_example =
    readi-writei no_devices 0 1 30 (7 ∷ 8 ∷ 9 ∷ []) root fs refl (λ e. absurd (omega arith))
      first_only (omega arith) (omega arith) (omega arith) (omega arith)
