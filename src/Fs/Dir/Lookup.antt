-- ===== src/Fs/Dir/Lookup.antt =====
-- dirlookup against the entries of a directory.
use ence.Base.{
  pos, negsuc, ℤ, ◌≢◌, ℕ, zero, suc, ◌+◌, ◌-◌, ◌*◌, ◌≤◌, ◌<◌, min, ◌≡◌, inl, inr, refl, sym, ap,
  ◌∙◌, subst, true, false, not, Bool-cases, Option, none, some, List, ◌==◌, ltb, arith, ℕ_discrete,
  dec_lt,
}
use ence.Strings.{Mem, strncmp}
use ence.Fs.Path.{dirsiz}
use ence.Fs.{Superblock, Disk, bsize}
use ence.Fs.Inode.{Inode, iget}
use ence.Fs.Inode.Icache.{Answer, iget-Answer}
use ence.Fs.File.{moved, readi}
use ence.Fs.File.Content.{Mapped, content, span, readi-content}
use ence.Fs.Dir.{
  t_dir, dirent_size, de_inum, de_name, namecmp, is_entry, Found, panics, absent, found, whole,
  look_from, Looked, dirlookup,
}

-- entry `j` of the directory
abbrev pub entry_of : Disk → Inode → (j : ℕ) → List ℕ
entry_of d dp j = span (content d dp) (j * dirent_size) dirent_size

-- The entry is in use and has the name, as strncmp compares its first 14 bytes.
abbrev pub Names : (name : Mem) → List ℕ → Type 0
Names name de = (de_inum de ≢ 0) × (strncmp name (de_name de) dirsiz ≡ pos 0)

is_zero : (z : ℤ) → elim z [ pos n ↦ n == 0 | negsuc n ↦ false ] ≡ true → z ≡ pos 0
is_zero (pos n) e = ap pos (ground (arith, e))
is_zero (negsuc n) e = ground (arith, e)

is_entry-Names : (name : Mem) (de : List ℕ) → is_entry name de ≡ true → Names name de
unfolding namecmp
is_entry-Names name de e = elim (ℕ_discrete (de_inum de) 0) [
  | yes unused ↦ absurd (ground (arith, e, unused))
  | no used ↦ (used, is_zero (strncmp name (de_name de) dirsiz) (ground (arith, e, used)))
]

is_entry-not_Names : (name : Mem) (de : List ℕ) → is_entry name de ≡ false → ¬ Names name de
unfolding namecmp
is_entry-not_Names name de e (used, same) = ground (arith, e, used, same)

-- A directory of `n` whole entries.
pub record Directory (d : Disk) (dp : Inode) (k n : ℕ) : Type 0 where
  pub type : dp.type ≡ t_dir
  pub size : dp.size ≡ n * dirent_size
  pub fits : dp.size ≤ k * bsize
  pub blocks : Mapped d dp k

-- What the search finds from entry `j` on.
data Searched (d : Disk) (dp : Inode) (name : Mem) (j n : ℕ) : Found → Type 0 where
  hit :
      (i : ℕ)
      → i < n
      → is_entry name (entry_of d dp i) ≡ true
      → ((x : ℕ) → j ≤ x → x < i → is_entry name (entry_of d dp x) ≡ false)
      → Searched d dp name j n (found (i * dirent_size) (de_inum (entry_of d dp i)) dp d)
  miss :
      ((x : ℕ) → j ≤ x → x < n → is_entry name (entry_of d dp x) ≡ false)
      → Searched d dp name j n (absent dp d)

module _ (sb : Superblock) (d : Disk) (dp : Inode) (k n : ℕ) (dir : Directory d dp k n)
    (name : Mem) where
  pub whole_entry :
      (j : ℕ)
      → j < n
      → whole (readi none sb d dp (j * dirent_size) dirent_size) ≡ some (entry_of d dp j, dp, d)
  whole_entry j lt =
      let all : min dirent_size (dp.size - j * dirent_size) ≡ dirent_size =
        omega (arith, dir.size) in
      let read =
        readi-content none sb d dp k (j * dirent_size) dirent_size
          (λ e. absurd (omega (arith, e, dir.type))) dir.blocks dir.fits (omega (arith, dir.size))
          (omega (arith, dir.size, dir.fits, dir.blocks.few)) in
      ap whole
        (read ∙ ap (λ (m : ℕ). some (moved m (span (content d dp) (j * dirent_size) m) dp d)) all)
      ∙ (unfold whole in refl)

  step_end :
      (fuel j : ℕ) → n ≤ j → look_from (suc fuel) sb d dp name (j * dirent_size) ≡ absent dp d
  unfolding look_from
  step_end fuel j le =
      let h : ltb (j * dirent_size) dp.size ≡ false = ground (arith, dir.size) in
      rw (look_from, h) refl

  step_hit :
      (fuel j : ℕ)
      → j < n
      → is_entry name (entry_of d dp j) ≡ true
      → look_from (suc fuel) sb d dp name (j * dirent_size)
        ≡ found (j * dirent_size) (de_inum (entry_of d dp j)) dp d
  unfolding look_from
  step_hit fuel j lt e =
      let h : ltb (j * dirent_size) dp.size ≡ true = ground (arith, dir.size) in
      rw (look_from, h, whole_entry j lt, e) refl

  step_miss :
      (fuel j : ℕ)
      → j < n
      → is_entry name (entry_of d dp j) ≡ false
      → look_from (suc fuel) sb d dp name (j * dirent_size)
        ≡ look_from fuel sb d dp name ((j + 1) * dirent_size)
  unfolding look_from
  step_miss fuel j lt e =
      let h : ltb (j * dirent_size) dp.size ≡ true = ground (arith, dir.size) in
      let at : j * dirent_size + dirent_size ≡ (j + 1) * dirent_size = omega arith in
      rw (look_from, h, whole_entry j lt, e) (ap (look_from fuel sb d dp name) at)

  -- one more entry before the search
  Searched-before :
      (j : ℕ) (o : Found)
      → is_entry name (entry_of d dp j) ≡ false
      → Searched d dp name (j + 1) n o
      → Searched d dp name j n o
  Searched-before j _ e (hit i lt h before) = hit i lt h (λ x lo hi. elim (ℕ_discrete x j) [
    | yes at ↦ ap (λ (x : ℕ). is_entry name (entry_of d dp x)) at ∙ e
    | no ne ↦ before x (omega arith) hi
  ])
  Searched-before j _ e (miss all) = miss (λ x lo hi. elim (ℕ_discrete x j) [
    | yes at ↦ ap (λ (x : ℕ). is_entry name (entry_of d dp x)) at ∙ e
    | no ne ↦ all x (omega arith) hi
  ])

  look_from-Searched :
      (fuel j : ℕ)
      → n ≤ j + fuel
      → Searched d dp name j n (look_from fuel sb d dp name (j * dirent_size))
  look_from-Searched zero j enough = unfold look_from in miss (λ x lo hi. absurd (omega arith))
  look_from-Searched (suc fuel) j enough = elim (dec_lt j n) [
    | no done ↦
        subst (Searched d dp name j n) (sym (step_end fuel j (omega arith)))
          (miss (λ x lo hi. absurd (omega arith)))
    | yes lt ↦ elim (Bool-cases (is_entry name (entry_of d dp j))) [
      | inl e ↦
          subst (Searched d dp name j n) (sym (step_hit fuel j lt e))
            (hit j lt e (λ x lo hi. absurd (omega arith)))
      | inr e ↦
          subst (Searched d dp name j n) (sym (step_miss fuel j lt e))
            (Searched-before j _ e (look_from-Searched fuel (j + 1) (omega arith)))
    ]
  ]

-- What dirlookup answers.
pub data Lookup (d : Disk) (dp : Inode) (cache : ℕ → Inode) (name : Mem) (n : ℕ)
    : Option Looked → Type 0 where
  -- the first entry with the name, and iget of its inode
  here :
      (i c : ℕ) (cache' : ℕ → Inode)
      → i < n
      → Names name (entry_of d dp i)
      → ((x : ℕ) → x < i → ¬ Names name (entry_of d dp x))
      → Answer cache dp.dev (de_inum (entry_of d dp i)) (some (c, cache'))
      → Lookup d dp cache name n
          (some (record { entry = some (i * dirent_size, c); cache = cache'; dp = dp; disk = d }))
  -- no entry has the name
  nowhere :
      ((x : ℕ) → x < n → ¬ Names name (entry_of d dp x))
      → Lookup d dp cache name n (some (record { entry = none; cache = cache; dp = dp; disk = d }))
  -- the inode of the first entry with the name finds no room in the cache
  no_room :
      (i : ℕ)
      → i < n
      → Names name (entry_of d dp i)
      → Answer cache dp.dev (de_inum (entry_of d dp i)) none
      → Lookup d dp cache name n none

got_inode :
    (d : Disk) (dp : Inode) (cache : ℕ → Inode) (name : Mem) (n i : ℕ)
    (o : Option (ℕ × (ℕ → Inode)))
    → i < n
    → Names name (entry_of d dp i)
    → ((x : ℕ) → x < i → ¬ Names name (entry_of d dp x))
    → Answer cache dp.dev (de_inum (entry_of d dp i)) o
    → Lookup d dp cache name n (elim o [
      | none ↦ none
      | some (c, cache') ↦
          some (record { entry = some (i * dirent_size, c); cache = cache'; dp = dp; disk = d })
    ])
got_inode d dp cache name n i none lt e before a = no_room i lt e a
got_inode d dp cache name n i (some (c, cache')) lt e before a = here i c cache' lt e before a

from_search :
    (d : Disk) (dp : Inode) (cache : ℕ → Inode) (name : Mem) (n : ℕ) (f : Found)
    → Searched d dp name 0 n f
    → Lookup d dp cache name n (elim f [
      | panics ↦ none
      | absent dp' d' ↦ some (record { entry = none; cache = cache; dp = dp'; disk = d' })
      | found poff inum dp' d' ↦ elim (iget cache dp'.dev inum) [
        | none ↦ none
        | some (i, cache') ↦
            some (record { entry = some (poff, i); cache = cache'; dp = dp'; disk = d' })
      ]
    ])
from_search d dp cache name n _ (hit i lt e before) =
    got_inode d dp cache name n i (iget cache dp.dev (de_inum (entry_of d dp i))) lt
      (is_entry-Names name (entry_of d dp i) e)
      (λ x hi. is_entry-not_Names name (entry_of d dp x) (before x (omega arith) hi))
      (iget-Answer cache dp.dev (de_inum (entry_of d dp i)))
from_search d dp cache name n _ (miss all) =
    nowhere (λ x lt. is_entry-not_Names name (entry_of d dp x) (all x (omega arith) lt))

-- In a directory of whole entries whose blocks are all there, dirlookup finds the first entry in use with the
-- name, with its offset and the cache entry that iget gives for its inode, and 0 where there is none; it panics only where
-- iget does. The directory and the disk stay.
pub dirlookup-Lookup :
    (sb : Superblock) (d : Disk) (dp : Inode) (k n : ℕ) (cache : ℕ → Inode) (name : Mem)
    → Directory d dp k n
    → Lookup d dp cache name n (dirlookup sb d cache dp name)
unfolding dirlookup
dirlookup-Lookup sb d dp k n cache name dir =
    let h : (not (dp.type == t_dir)) ≡ false = ground (arith, dir.type) in
    rw h (
      from_search d dp cache name n (look_from dp.size sb d dp name 0)
        (look_from-Searched sb d dp k n dir name dp.size 0 (omega (arith, dir.size))))
