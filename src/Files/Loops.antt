-- ===== src/Files/Loops.antt =====
-- The loops of fork and exit over the descriptors, and the numbers of references.
use ence.Base.{
  ℕ, zero, suc, ◌+◌, ◌<◌, ◌≤◌, ◌≡◌, refl, ap, ◌∙◌, subst, Option, none, some, List, [], ◌∷◌, update,
  update_self, update_ne, ℕ_discrete, Option-cases, inl, inr, arith, pos,
}
use ence.Files.{nofile, File, Closing, Called, fork_files, exit_files}
use ence.Files.Count.{count, held-count}
use ence.Files.Calls.{
  Balanced, fileclose-Closes, filedup-Dups, attach-Balanced, detach-Balanced, named-ref,
}

-- What the loop of fork comes to: the child's descriptors are references too.
pub data Forks (extra : ℕ → ℕ) (ofile : ℕ → Option ℕ)
    : Option ((ℕ → File) × (ℕ → Option ℕ)) → Type 0 where
  forked :
      (files : ℕ → File) (child : ℕ → Option ℕ)
      → Balanced (λ g. extra g + count ofile g) files child
      → Forks extra ofile (some (files, child))

pub fork_files-Forks :
    (extra : ℕ → ℕ) (files : ℕ → File) (ofile child : ℕ → Option ℕ) (fd k : ℕ)
    → fd + k ≡ nofile
    → ((d : ℕ) → fd ≤ d → d < nofile → child d ≡ none)
    → Balanced (λ g. extra g + count ofile g) files child
    → Forks extra ofile (fork_files files ofile child fd k)
unfolding fork_files
fork_files-Forks extra files ofile child fd zero top free b = forked files child b
fork_files-Forks extra files ofile child fd (suc k) top free b = elim (Option-cases (ofile fd)) [
  | inl e ↦ subst (Forks extra ofile) (rw (fork_files, e) refl) (
      fork_files-Forks extra files ofile child (fd + 1) k (omega arith)
        (λ d le lt. free d (omega arith) lt) b)
  | inr (f, e) ↦
      let one = held-count ofile fd f (omega arith) e in
      let d = filedup-Dups files f (unfold Balanced in omega (arith, b f, one)) in
      subst (Forks extra ofile) (rw (fork_files, e, d.eq) refl) (
        fork_files-Forks extra d.files' ofile (update child fd (some f)) (fd + 1) k (omega arith)
          (λ x le lt. update_ne child fd x (some f) (omega arith) ∙ free x (omega arith) lt)
          (attach-Balanced (λ g. extra g + count ofile g) files d.files' child fd f b (omega arith)
            (free fd (omega arith) (omega arith)) d.refs))
]

-- What the loop of exit comes to: no descriptor is left.
pub data Exits (extra : ℕ → ℕ) : Option Called → Type 0 where
  exited :
      (c : Called)
      → Balanced extra c.files c.ofile
      → ((d : ℕ) → d < nofile → c.ofile d ≡ none)
      → Exits extra (some c)

pub exit_files-Exits :
    (extra : ℕ → ℕ) (files : ℕ → File) (ofile : ℕ → Option ℕ) (fd k : ℕ) (todo : List Closing)
    → fd + k ≡ nofile
    → ((d : ℕ) → d < fd → ofile d ≡ none)
    → Balanced extra files ofile
    → Exits extra (exit_files files ofile fd k todo)
unfolding exit_files
exit_files-Exits extra files ofile fd zero todo top free b =
    exited (record { files = files; ofile = ofile; result = pos 0; todo = todo; out = [] }) b
      (λ d lt. free d (omega arith))
exit_files-Exits extra files ofile fd (suc k) todo top free b = elim (Option-cases (ofile fd)) [
  | inl e ↦ subst (Exits extra) (rw (exit_files, e) refl) (
      exit_files-Exits extra files ofile (fd + 1) k todo (omega arith)
        (λ d lt. elim (ℕ_discrete d fd) [
          | yes same ↦ ap ofile same ∙ e
          | no ne ↦ free d (omega arith)
        ])
        b)
  | inr (f, e) ↦
      let c = fileclose-Closes files f (named-ref extra files ofile fd f b (omega arith) e) in
      subst (Exits extra) (rw (exit_files, e, c.eq) refl) (
        exit_files-Exits extra c.files' (update ofile fd none) (fd + 1) k (c.todo ∷ todo)
          (omega arith)
          (λ d lt. elim (ℕ_discrete d fd) [
            | yes same ↦ ap (update ofile fd none) same ∙ update_self ofile fd none
            | no ne ↦ update_ne ofile fd d none ne ∙ free d (omega arith)
          ])
          (detach-Balanced extra files c.files' ofile fd f b (omega arith) e c.refs))
]
