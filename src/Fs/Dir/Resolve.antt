-- ===== src/Fs/Dir/Resolve.antt =====
-- walk_path against a recursion over the names of the path.
use jos_kernel.Base.{
  List, Option, [], arith, if◌then◌else◌, leb, length, none, not, refl, some, suc, zero, ℕ, ◌==◌,
  ◌∷◌, ◌≡◌, ◌≤◌, ap, ◌∙◌,
}
use jos_kernel.Fs.{
  Disk, Fs, FsError, bad_path, bind, done, failed, got, not_found, Answer, Run, panicked,
}
use jos_kernel.Fs.Dir.{
  Walk, dir_lookup, f_type, ftype_dir, is_not_found, maxnamelen, missed, missing, walk_loop, walked,
  behind, element, s_root, skip_slash, walk_path,
}
use jos_kernel.Fs.Dir.Names.{
  IsAtName, names, names-element, length-behind-name, length-skip_slash, names-skip_slash,
  skip_slash-IsAtName,
}

-- A name is not found, with other names behind it.
abbrev pub unresolved : FsError → ℕ → List ℕ → List (List ℕ) → Walk
unresolved x f name [] = if is_not_found x then missing x (some f) name else missing x none []
unresolved x f name (_ ∷ _) = missing x none []

-- The file that the names lead to from the file `f`, whose directory is `dir`.
unfoldable pub resolve : List (List ℕ) → Option ℕ → ℕ → Fs Walk
resolve [] dir f = done (walked dir f)
resolve (name ∷ more) dir f = λ d.
    if leb maxnamelen (length name)
    then done (missing bad_path none []) d
    else if not (d.mem (f_type f) == ftype_dir)
    then done (missing not_found none []) d
    else bind (dir_lookup f name d)
        λ r. elim r [ got g ↦ resolve more (some f) g | failed x ↦ done (unresolved x f name more) ]

-- An error of dir_lookup, by the path that is left or by the names that are.
missed-names :
    (x : FsError) (f : ℕ) (name p : List ℕ)
    → IsAtName p
    → missed x f name p ≡ unresolved x f name (names p)
missed-names x f name [] at = refl
missed-names x f name (c ∷ p) at = rw (names-element c p at)

-- A round, given what dir_lookup makes of the name and that the loop goes on as it should.
same_round :
    (n f : ℕ) (name p : List ℕ) (run : Run Answer)
    → IsAtName p
    → ((g : ℕ) (d : Disk) → walk_loop n p (some f) g d ≡ resolve (names p) (some f) g d)
    → bind run
        (λ r. elim r [ failed x ↦ done (missed x f name p) | got g ↦ walk_loop n p (some f) g ])
      ≡ bind run (λ r. elim r [
        | got g ↦ resolve (names p) (some f) g
        | failed x ↦ done (unresolved x f name (names p))
      ])
same_round n f name p panicked at rest = refl
same_round n f name p (done (got g) d) at rest = rest g d
same_round n f name p (done (failed x) d) at rest = ap (λ w. done w d) (missed-names x f name p at)

walk_loop-resolve :
    (n : ℕ) (p : List ℕ) (dir : Option ℕ) (f : ℕ) (d : Disk)
    → IsAtName p
    → length p ≤ n
    → walk_loop n p dir f d ≡ resolve (names p) dir f d
unfolding walk_loop resolve
walk_loop-resolve zero [] dir f d at enough = refl
walk_loop-resolve zero (c ∷ p) dir f d at enough = absurd (omega arith)
walk_loop-resolve (suc n) [] dir f d at enough = refl
walk_loop-resolve (suc n) (c ∷ p) dir f d at enough =
    let rest = skip_slash (behind (c ∷ p)) in
    let name = element (c ∷ p) in
    let shorter : length rest ≤ n =
      omega (arith, length-skip_slash (behind (c ∷ p)), length-behind-name c p at) in
    rw (names-element c p at) (
      ap
        (λ run.
          if leb maxnamelen (length name)
          then done (missing bad_path none []) d
          else if not (d.mem (f_type f) == ftype_dir)
          then done (missing not_found none []) d
          else run)
        (same_round n f name rest (dir_lookup f name d) (skip_slash-IsAtName (behind (c ∷ p)))
          (λ g d'.
            walk_loop-resolve n rest (some f) g d' (skip_slash-IsAtName (behind (c ∷ p))) shorter)))

-- walk_path, with as many rounds as the path has characters, is the recursion over the names of the
-- path from the root directory: slashes at the start, at the end and repeated do not matter. A name of
-- MAXNAMELEN characters or more is a bad path, a name in a file that is no directory is not found,
-- and only where the last name is not found the directory and that name are returned.
pub walk_path-resolve :
    (path : List ℕ) (d : Disk) → walk_path path d ≡ resolve (names path) none s_root d
unfolding walk_path
walk_path-resolve path d =
    walk_loop-resolve (length path) (skip_slash path) none s_root d (skip_slash-IsAtName path)
      (length-skip_slash path)
    ∙ ap (λ l. resolve l none s_root d) (names-skip_slash path)
