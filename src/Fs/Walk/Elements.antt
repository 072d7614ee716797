-- ===== src/Fs/Walk/Elements.antt =====
-- namex walks the elements of the path.
use ence.Base.{
  ℕ, zero, suc, ◌+◌, ◌<◌, ◌≡◌, refl, sym, ap, subst, Bool, true, false, Option, none, some, List,
  [], ◌∷◌, length, take, arith,
}
use mathlib.Core.Option.{some-injective}
use ence.Fs.{Superblock, Disk}
use ence.Fs.Inode.{Inode}
use ence.Fs.Path.{
  dirsiz, elements, skip_slashes, pass, skip_on, skipelem, Skipped, no_name, name, skipelem-Skipped,
  Named, ended, more, skip_slashes-Named, elements_named,
}
use ence.Fs.Walk.{
  Walked, panics, Round, stops, goes, round, ending, at_end, namex_from, from_start, namex,
}

-- no element is left
abbrev pub none_left : List (List ℕ) → Bool
none_left [] = true
none_left (s ∷ names) = false

-- The rounds for a list of names, each cut at 14 bytes.
unfoldable pub walk :
    Superblock
    → Disk
    → (cache : ℕ → Inode) → (i : ℕ) (names : List (List ℕ)) (nameiparent : Bool) (last : List ℕ)
    → Walked
walk sb d cache i [] nameiparent last = ending sb d cache i nameiparent last
walk sb d cache i (s ∷ names) nameiparent last =
    elim (round sb d cache i nameiparent (none_left names) (take dirsiz s)) [
      | stops w ↦ w
      | goes next cache' d' ↦ walk sb d' cache' next names nameiparent (take dirsiz s)
    ]

at_end-Named : (path : List ℕ) → Named path → at_end path ≡ none_left (elements [] path)
at_end-Named _ ended = unfold elements in refl
at_end-Named _ (more c path ne) = sym (ap none_left (elements_named c path ne))

skip_on-at_end :
    (path rest s : List ℕ)
    → skip_on path ≡ some (rest, s)
    → at_end rest ≡ none_left (elements [] rest)
unfolding skip_on
skip_on-at_end [] rest s e = ground (arith, e)
skip_on-at_end (c ∷ path) rest s e =
    let left = skip_slashes (pass (c ∷ path)).1 in
    let same : left ≡ rest = ap (λ (o : List ℕ × List ℕ). o.0) (some-injective _ (rest, s) e) in
    subst (λ (p : List ℕ). at_end p ≡ none_left (elements [] p)) same
      (at_end-Named left (skip_slashes-Named (pass (c ∷ path)).1))

skipelem-at_end :
    (path rest s : List ℕ)
    → skipelem path ≡ some (rest, s)
    → at_end rest ≡ none_left (elements [] rest)
unfolding skipelem
skipelem-at_end path rest s e = skip_on-at_end (skip_slashes path) rest s e

module _ (sb : Superblock) (nameiparent : Bool) where
  -- one round and the rest
  step_walk :
      (fuel : ℕ) (d : Disk) (cache : ℕ → Inode) (i : ℕ) (path : List ℕ) (last : List ℕ)
      (o : Option (List ℕ × List ℕ))
      → Skipped path o
      → skipelem path ≡ o
      → length path < suc fuel
      → ((d : Disk) (cache : ℕ → Inode) (i : ℕ) (rest s : List ℕ)
          → length rest < fuel
          → namex_from fuel sb d cache i rest nameiparent s
            ≡ walk sb d cache i (elements [] rest) nameiparent s)
      → namex_from (suc fuel) sb d cache i path nameiparent last
        ≡ walk sb d cache i (elements [] path) nameiparent last
  unfolding namex_from walk
  step_walk fuel d cache i path last _ (no_name none_at) e enough ih =
      rw (namex_from, e, none_at) refl
  step_walk fuel d cache i path last _ (name s rest at short) e enough ih =
      rw (namex_from, e, at, walk, skipelem-at_end path rest (take dirsiz s) e)
        (rounds (round sb d cache i nameiparent (none_left (elements [] rest)) (take dirsiz s)))
    where
      rounds :
          (r : Round)
          → elim r [
            | stops w ↦ w
            | goes next cache' d' ↦
                namex_from fuel sb d' cache' next rest nameiparent (take dirsiz s)
          ]
            ≡ elim r [
              | stops w ↦ w
              | goes next cache' d' ↦
                  walk sb d' cache' next (elements [] rest) nameiparent (take dirsiz s)
            ]
      rounds (stops w) = refl
      rounds (goes next cache' d') = ih d' cache' next rest (take dirsiz s) (omega arith)

  namex_from-walk :
      (fuel : ℕ) (d : Disk) (cache : ℕ → Inode) (i : ℕ) (path last : List ℕ)
      → length path < fuel
      → namex_from fuel sb d cache i path nameiparent last
        ≡ walk sb d cache i (elements [] path) nameiparent last
  namex_from-walk zero d cache i path last enough = absurd (omega arith)
  namex_from-walk (suc fuel) d cache i path last enough =
      step_walk fuel d cache i path last (skipelem path) (skipelem-Skipped path) refl enough
        (λ d cache i rest s lt. namex_from-walk fuel d cache i rest s lt)

-- namex ends, and comes to the same as going through the elements of the path, which slashes in any number
-- separate, from the root or the current directory: one round for each, which knows whether it is the last.
pub namex-walk :
    (sb : Superblock) (d : Disk) (cache : ℕ → Inode) (cwd : ℕ) (path : List ℕ) (nameiparent : Bool)
    → namex sb d cache cwd path nameiparent ≡ elim (from_start cache cwd path) [
      | none ↦ panics
      | some (i, cache') ↦ walk sb d cache' i (elements [] path) nameiparent []
    ]
unfolding namex
namex-walk sb d cache cwd path nameiparent = starts (from_start cache cwd path)
  where
    starts :
        (o : Option (ℕ × (ℕ → Inode)))
        → elim o [
          | none ↦ panics
          | some (i, cache') ↦ namex_from (length path + 1) sb d cache' i path nameiparent []
        ]
          ≡ elim o [
            | none ↦ panics
            | some (i, cache') ↦ walk sb d cache' i (elements [] path) nameiparent []
          ]
    starts none = refl
    starts (some (i, cache')) =
        namex_from-walk sb nameiparent (length path + 1) d cache' i path [] (omega arith)
