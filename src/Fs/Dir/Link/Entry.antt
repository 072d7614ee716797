-- ===== src/Fs/Dir/Link/Entry.antt =====
-- The bytes of a new entry: its inode and its name are read back.
use ence.Base.{ℕ, zero, suc, ◌+◌, ◌^◌, ◌<◌, ◌≡◌, refl, sym, ap, ◌∙◌, List, length, pos, arith}
use ence.Strings.{Mem, strncmp, strncpy}
use ence.Strings.Compare.{strncmp_iff}
use ence.Strings.Copy.{strncmp-strncpy}
use ence.Fs.File.{get_bytes}
use ence.Fs.Path.{dirsiz}
use ence.Fs.Dir.{dirent_size, byte_at, de_inum, de_name}
use ence.Fs.Dir.Link.{new_entry}

pub length-get_bytes : (block : Mem) (a m : ℕ) → length (get_bytes block a m) ≡ m
unfolding get_bytes
length-get_bytes block a zero = refl
length-get_bytes block a (suc m) = ap suc (length-get_bytes block (a + 1) m)

pub byte_at-get_bytes :
    (block : Mem) (a m i : ℕ) → i < m → byte_at (get_bytes block a m) i ≡ block (a + i)
unfolding byte_at get_bytes
byte_at-get_bytes block a zero i lt = absurd (omega arith)
byte_at-get_bytes block a (suc m) zero lt = ap block (omega arith)
byte_at-get_bytes block a (suc m) (suc i) lt =
    byte_at-get_bytes block (a + 1) m i (omega arith) ∙ ap block (omega arith)

pub length-new_entry :
    (de : List ℕ) (name : Mem) (inum : ℕ) → length (new_entry de name inum) ≡ dirent_size
length-new_entry de name inum =
    ap (λ n. suc (suc n)) (length-get_bytes (strncpy (de_name de) name dirsiz) 0 dirsiz)

pub de_inum-new_entry :
    (de : List ℕ) (name : Mem) (inum : ℕ) → inum < 2 ^ 16 → de_inum (new_entry de name inum) ≡ inum
unfolding byte_at
de_inum-new_entry de name inum lt = omega arith

pub new_entry_named :
    (de : List ℕ) (name : Mem) (inum : ℕ)
    → strncmp name (de_name (new_entry de name inum)) dirsiz ≡ pos 0
unfolding byte_at
new_entry_named de name inum =
    let s = strncpy (de_name de) name dirsiz in
    let same = (strncmp_iff name s dirsiz).0 (strncmp-strncpy (de_name de) name dirsiz) in
    (strncmp_iff name (de_name (new_entry de name inum)) dirsiz).1 (λ i lt live.
      let bytes = new_entry de name inum in
      let two : i + 2 ≡ suc (suc i) = omega arith in
      let start : 0 + i ≡ i = omega arith in
      same i lt live
      ∙ sym (ap (byte_at bytes) two ∙ (byte_at-get_bytes s 0 dirsiz i lt ∙ ap s start)))
