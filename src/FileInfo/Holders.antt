-- ===== src/FileInfo/Holders.antt =====
-- Minix_Filefrag/fileinfo/fileinfo/usr/src/servers/vfs/fileinfo.c: do_fileinfo, over the tables of
-- VFS. The debug messages are off.
use gjworks.Common.{
  ◌||◌, ℕ, suc, ◌+◌, ◌<◌, ◌≡◌, refl, sym, ap, ◌∙◌, Bool, true, false, List, [], ◌∷◌, ◌++◌, Option,
  none, some, ◌==◌, ==_refl, subst, if◌then◌else◌, length, length-append, append_assoc, append_nil,
  Bool-cases, inl, inr, fun_ext, arith,
}
use gjworks.Machine.{Run, ok, fault, ◌>>=◌}

-- `struct filp`: the inode number of its vnode, if filp_vno is not NULL.
pub record Filp : Type 0 where
  pub v_inode_nr : Option ℕ

-- `struct fproc`: fp_filp has for each descriptor the index of its filp, or NULL.
pub record Fproc : Type 0 where
  pub fp_pid : ℕ
  pub fp_filp : List (Option ℕ)

-- The loop over the descriptors of a process.
unfoldable pub has_filp : ℕ → List (Option ℕ) → Bool
has_filp k [] = false
has_filp k (none ∷ fds) = has_filp k fds
has_filp k (some j ∷ fds) = if j == k then true else has_filp k fds

-- `sprintf` is what `sprintf(pids, "%s %d", pids, pid)` leaves in pids, an array of 1024.
module _ (sprintf : List ℕ → ℕ → Run (List ℕ)) where
  -- The loop over the processes, for the filp `k`.
  unfoldable pub add_pids : ℕ → List Fproc → List ℕ → Run (List ℕ)
  unfolding has_filp
  add_pids k [] pids = ok pids
  add_pids k (p ∷ fproc) pids =
      let more = sprintf pids p.fp_pid >>= λ b. add_pids k fproc b in
      let same = add_pids k fproc pids in if has_filp k p.fp_filp then more else same

  -- The loop over the filps, from `k` on: what is copied to the caller, if anything is.
  unfoldable pub find_filp : ℕ → ℕ → List Filp → List Fproc → Run (Option (List ℕ))
  unfolding add_pids
  find_filp inode_nr k [] fproc = ok none
  find_filp inode_nr k (f ∷ filp) fproc =
      let next = find_filp inode_nr (k + 1) filp fproc in
      elim f.v_inode_nr [
        | none ↦ fault
        | some nr ↦
            if nr == inode_nr then (add_pids k fproc [] >>= λ pids. ok (some pids)) else next
      ]

  -- do_fileinfo
  unfoldable pub do_fileinfo : ℕ → List Filp → List Fproc → Run (Option (List ℕ))
  unfolding find_filp
  do_fileinfo inode_nr filp fproc = find_filp inode_nr 0 filp fproc

-- Filps that are in use, of other files.
abbrev pub AreOthers : ℕ → List Filp → Type 0
AreOthers inode_nr [] = Unit
AreOthers inode_nr (f ∷ filp) =
    ((nr : ℕ) × (f.v_inode_nr ≡ some nr) × ((nr == inode_nr) ≡ false)) × AreOthers inode_nr filp

-- The filps of a process, and whether one is among them.
abbrev pub open_filps : List (Option ℕ) → List ℕ
open_filps [] = []
open_filps (none ∷ fds) = open_filps fds
open_filps (some j ∷ fds) = j ∷ open_filps fds

abbrev pub member : ℕ → List ℕ → Bool
member k [] = false
member k (j ∷ l) = (j == k) || member k l

-- The processes that have the filp open.
abbrev pub holders : ℕ → List Fproc → List ℕ
holders k [] = []
holders k (p ∷ fproc) =
    if member k (open_filps p.fp_filp) then p.fp_pid ∷ holders k fproc else holders k fproc

has_filp-member : (k : ℕ) (fds : List (Option ℕ)) → has_filp k fds ≡ member k (open_filps fds)
unfolding has_filp
has_filp-member k [] = refl
has_filp-member k (none ∷ fds) = has_filp-member k fds
has_filp-member k (some j ∷ fds) = elim (Bool-cases (j == k)) [
  | inl e ↦ rw (e) refl
  | inr e ↦ rw (e) (has_filp-member k fds)
]

-- `sprintf` for one process after the other.
abbrev pub print_all : (List ℕ → ℕ → Run (List ℕ)) → List ℕ → List ℕ → Run (List ℕ)
print_all sprintf buf [] = ok buf
print_all sprintf buf (pid ∷ pids) = sprintf buf pid >>= λ b. print_all sprintf b pids

module _ (sprintf : List ℕ → ℕ → Run (List ℕ)) where
  add_pids-holders :
      (k : ℕ) (fproc : List Fproc) (pids : List ℕ)
      → add_pids sprintf k fproc pids ≡ print_all sprintf pids (holders k fproc)
  unfolding add_pids
  add_pids-holders k [] pids = refl
  add_pids-holders k (p ∷ fproc) pids = elim (Bool-cases (member k (open_filps p.fp_filp))) [
    | inr e ↦ rw (has_filp-member k p.fp_filp ∙ e, add_pids, e) (add_pids-holders k fproc pids)
    | inl e ↦
        rw (has_filp-member k p.fp_filp ∙ e, add_pids, e)
          (ap (λ f. sprintf pids p.fp_pid >>= f) (fun_ext (λ b. add_pids-holders k fproc b)))
  ]

  find_filp-holders :
      (inode_nr k : ℕ) (before : List Filp) (f : Filp) (after : List Filp) (fproc : List Fproc)
      → AreOthers inode_nr before
      → f.v_inode_nr ≡ some inode_nr
      → find_filp sprintf inode_nr k (before ++ (f ∷ after)) fproc
        ≡ (print_all sprintf [] (holders (k + length before) fproc) >>= λ pids. ok (some pids))
  unfolding find_filp
  find_filp-holders inode_nr k [] f after fproc others e =
      let same : k + 0 ≡ k = omega arith in
      rw (e, ==_refl inode_nr, add_pids-holders k fproc [], same) refl
  find_filp-holders inode_nr k (g ∷ before) f after fproc ((nr, a, b), others) e =
      let same : k + 1 + length before ≡ k + suc (length before) = omega arith in
      rw (a, b, sym same) (find_filp-holders inode_nr (k + 1) before f after fproc others e)

  find_filp-none :
      (inode_nr k : ℕ) (filp : List Filp) (fproc : List Fproc)
      → AreOthers inode_nr filp
      → find_filp sprintf inode_nr k filp fproc ≡ ok none
  unfolding find_filp
  find_filp-none inode_nr k [] fproc others = refl
  find_filp-none inode_nr k (g ∷ filp) fproc ((nr, a, b), others) =
      rw (a, b) (find_filp-none inode_nr (k + 1) filp fproc others)

  find_filp-unused :
      (inode_nr k : ℕ) (before : List Filp) (f : Filp) (after : List Filp) (fproc : List Fproc)
      → AreOthers inode_nr before
      → f.v_inode_nr ≡ none
      → find_filp sprintf inode_nr k (before ++ (f ∷ after)) fproc ≡ fault
  unfolding find_filp
  find_filp-unused inode_nr k [] f after fproc others e = rw (e) refl
  find_filp-unused inode_nr k (g ∷ before) f after fproc ((nr, a, b), others) e =
      rw (a, b) (find_filp-unused inode_nr (k + 1) before f after fproc others e)

  -- do_fileinfo goes through the table of filps up to the first that is of the file, and prints for
  -- the caller the numbers of the processes that have this filp, in the order of their table,
  -- whatever sprintf does with its own argument; a filp of the same file that was opened apart is
  -- not looked at. Without one the caller gets nothing, and an unused filp before it is read
  -- through NULL.
  pub do_fileinfo-holders :
      (inode_nr : ℕ) (before : List Filp) (f unused : Filp) (after : List Filp) (fproc : List Fproc)
      → AreOthers inode_nr before
      → f.v_inode_nr ≡ some inode_nr
      → unused.v_inode_nr ≡ none
      → (do_fileinfo sprintf inode_nr (before ++ (f ∷ after)) fproc
          ≡ (print_all sprintf [] (holders (length before) fproc) >>= λ pids. ok (some pids)))
        × (do_fileinfo sprintf inode_nr before fproc ≡ ok none)
        × (do_fileinfo sprintf inode_nr (before ++ (unused ∷ after)) fproc ≡ fault)
  unfolding do_fileinfo
  do_fileinfo-holders inode_nr before f unused after fproc others e e' =
      let same : 0 + length before ≡ length before = omega arith in
      (
        find_filp-holders inode_nr 0 before f after fproc others e
            ∙ ap (λ j. print_all sprintf [] (holders j fproc) >>= λ pids. ok (some pids)) same,
        find_filp-none inode_nr 0 before fproc others,
        find_filp-unused inode_nr 0 before unused after fproc others e',
      )

-- The text for some processes, each with a space before it.
abbrev pub text_of : (ℕ → List ℕ) → List ℕ → List ℕ
text_of digits [] = []
text_of digits (pid ∷ pids) = (32 ∷ digits pid) ++ text_of digits pids

-- That sprintf appends to its own argument, which C leaves undefined.
abbrev pub Appends : (List ℕ → ℕ → Run (List ℕ)) → (ℕ → List ℕ) → Type 0
Appends sprintf digits =
    (buf : List ℕ) (pid : ℕ)
    → length (buf ++ (32 ∷ digits pid)) < 1024
    → sprintf buf pid ≡ ok (buf ++ (32 ∷ digits pid))

-- Where sprintf appends, the text is printed, if it is shorter than 1024.
pub print_all-text :
    (sprintf : List ℕ → ℕ → Run (List ℕ)) (digits : ℕ → List ℕ)
    → Appends sprintf digits
    → (buf pids : List ℕ) → length (buf ++ text_of digits pids) < 1024
    → print_all sprintf buf pids ≡ ok (buf ++ text_of digits pids)
print_all-text sprintf digits appends buf [] lt = ap ok (sym (append_nil buf))
print_all-text sprintf digits appends buf (pid ∷ pids) lt =
    let one : List ℕ = 32 ∷ digits pid in
    let rest = text_of digits pids in
    let assoc = append_assoc buf one rest in
    let first : sprintf buf pid ≡ ok (buf ++ one) =
      appends buf pid (omega (arith, length-append (buf ++ one) rest, ap length assoc, lt)) in
    rw (first) (
      print_all-text sprintf digits appends (buf ++ one) pids
        (subst (λ l. length l < 1024) (sym assoc) lt)
      ∙ ap ok assoc)
