-- ===== src/Proc/Dispatch/Local.antt =====
-- What is changed in a call that is made local.
use mathlib.Core.Option
use mathlib.Core.Option.{some-injective}
use unfs3_raft.Base.{
  ℕ, ◌≡◌, refl, ap, sym, ◌∙◌, List, [], ◌∷◌, Option, none, some, Option-cases, inl, inr,
}
use unfs3_raft.Bytes.{ByteOrder}
use unfs3_raft.Fh.{NfsFh}
use unfs3_raft.Raft.Handles.{LocalHandle, adjust_handle}
use unfs3_raft.Proc.{DirOpArgs}
use unfs3_raft.Proc.Dispatch.{
  Call, null_call, getattr_call, setattr_call, lookup_call, access_call, readlink_call, read_call,
  write_call, create_call, mkdir_call, symlink_call, mknod_call, remove_call, rmdir_call,
  rename_call, link_call, readdir_call, readdirplus_call, fsstat_call, fsinfo_call, pathconf_call,
  commit_call, adjusted, adjusted_dir, adjusted_twice, adjust_handles_for_proc, is_replicated,
}

-- All handles of a call.
unfoldable pub handles : Call → List NfsFh
handles null_call = []
handles (getattr_call object) = object ∷ []
handles (setattr_call object new guard) = object ∷ []
handles (lookup_call what) = what.dir ∷ []
handles (access_call object wanted) = object ∷ []
handles (readlink_call symlink) = symlink ∷ []
handles (read_call file offset count) = file ∷ []
handles (write_call file contents offset how) = file ∷ []
handles (create_call target how) = target.dir ∷ []
handles (mkdir_call target new) = target.dir ∷ []
handles (symlink_call target attributes contents) = target.dir ∷ []
handles (mknod_call target what) = target.dir ∷ []
handles (remove_call object) = object.dir ∷ []
handles (rmdir_call object) = object.dir ∷ []
handles (rename_call from to) = from.dir ∷ (to.dir ∷ [])
handles (link_call file target) = file ∷ (target.dir ∷ [])
handles (readdir_call dir cookie count) = dir ∷ []
handles (readdirplus_call dir) = dir ∷ []
handles (fsstat_call fsroot) = fsroot ∷ []
handles (fsinfo_call fsroot) = fsroot ∷ []
handles (pathconf_call object) = object ∷ []
handles (commit_call file) = file ∷ []

abbrev pub no_dir : DirOpArgs → DirOpArgs
no_dir args = record args { dir = [] }

-- The call with its handles left empty.
unfoldable pub blank : Call → Call
blank null_call = null_call
blank (getattr_call object) = getattr_call []
blank (setattr_call object new guard) = setattr_call [] new guard
blank (lookup_call what) = lookup_call (no_dir what)
blank (access_call object wanted) = access_call [] wanted
blank (readlink_call symlink) = readlink_call []
blank (read_call file offset count) = read_call [] offset count
blank (write_call file contents offset how) = write_call [] contents offset how
blank (create_call target how) = create_call (no_dir target) how
blank (mkdir_call target new) = mkdir_call (no_dir target) new
blank (symlink_call target attributes contents) = symlink_call (no_dir target) attributes contents
blank (mknod_call target what) = mknod_call (no_dir target) what
blank (remove_call object) = remove_call (no_dir object)
blank (rmdir_call object) = rmdir_call (no_dir object)
blank (rename_call from to) = rename_call (no_dir from) (no_dir to)
blank (link_call file target) = link_call [] (no_dir target)
blank (readdir_call dir cookie count) = readdir_call [] cookie count
blank (readdirplus_call dir) = readdirplus_call []
blank (fsstat_call fsroot) = fsstat_call []
blank (fsinfo_call fsroot) = fsinfo_call []
blank (pathconf_call object) = pathconf_call []
blank (commit_call file) = commit_call []

is_replicated-blank : (made : Call) → is_replicated (blank made) ≡ is_replicated made
unfolding is_replicated blank
is_replicated-blank null_call = refl
is_replicated-blank (getattr_call o) = refl
is_replicated-blank (setattr_call o n g) = refl
is_replicated-blank (lookup_call w) = refl
is_replicated-blank (access_call o w) = refl
is_replicated-blank (readlink_call s) = refl
is_replicated-blank (read_call f o n) = refl
is_replicated-blank (write_call f b o w) = refl
is_replicated-blank (create_call t w) = refl
is_replicated-blank (mkdir_call t n) = refl
is_replicated-blank (symlink_call t a b) = refl
is_replicated-blank (mknod_call t w) = refl
is_replicated-blank (remove_call o) = refl
is_replicated-blank (rmdir_call o) = refl
is_replicated-blank (rename_call f t) = refl
is_replicated-blank (link_call f t) = refl
is_replicated-blank (readdir_call d k n) = refl
is_replicated-blank (readdirplus_call d) = refl
is_replicated-blank (fsstat_call r) = refl
is_replicated-blank (fsinfo_call r) = refl
is_replicated-blank (pathconf_call o) = refl
is_replicated-blank (commit_call f) = refl

abbrev pub cons : Option NfsFh → Option (List NfsFh) → Option (List NfsFh)
cons none fhs = none
cons (some fh) none = none
cons (some fh) (some fhs) = some (fh ∷ fhs)

module _ (host : ByteOrder) (junk : List ℕ) (here : LocalHandle) where
  unfoldable pub adjust_all : List NfsFh → Option (List NfsFh)
  adjust_all [] = some []
  adjust_all (fh ∷ fhs) = cons (adjust_handle host junk here fh) (adjust_all fhs)

  -- The handles of the result are those of the call, each made local, and the rest is as it was.
  pub record IsLocal (call : Call) (result : Option Call) : Type 0 where
    pub local_handles : Option.map handles result ≡ adjust_all (handles call)
    pub same_rest : Option.map blank result ≡ Option.map (λ _. blank call) result

  adjusted-IsLocal :
      (make : NfsFh → Call) (fh : NfsFh) (call : Call)
      → handles call ≡ fh ∷ []
      → ((x : NfsFh) → handles (make x) ≡ x ∷ [])
      → ((x : NfsFh) → blank (make x) ≡ blank call)
      → IsLocal call (adjusted host junk here make fh)
  unfolding adjusted adjust_all
  adjusted-IsLocal make fh call e h b = elim (Option-cases (adjust_handle host junk here fh)) [
    | inl n ↦ record { local_handles = rw (e, adjust_all, n) refl; same_rest = rw n refl }
    | inr (x, s) ↦ record {
      local_handles = rw (e, adjust_all, s, h x) refl;
      same_rest = rw (s, b x) refl;
    }
  ]

  adjusted_twice-IsLocal :
      (make : NfsFh → NfsFh → Call) (first second : NfsFh) (call : Call)
      → handles call ≡ first ∷ (second ∷ [])
      → ((x y : NfsFh) → handles (make x y) ≡ x ∷ (y ∷ []))
      → ((x y : NfsFh) → blank (make x y) ≡ blank call)
      → IsLocal call
          (adjusted_twice host junk here make second (adjust_handle host junk here first))
  unfolding adjusted adjusted_twice adjust_all
  adjusted_twice-IsLocal make first second call e h b =
      elim (Option-cases (adjust_handle host junk here first)) [
        | inl n ↦ record { local_handles = rw (e, adjust_all, n) refl; same_rest = rw n refl }
        | inr (x, s) ↦ elim (Option-cases (adjust_handle host junk here second)) [
          | inl n ↦ record {
            local_handles = rw (e, adjust_all, s, n) refl;
            same_rest = rw (s, n) refl;
          }
          | inr (y, t) ↦ record {
            local_handles = rw (e, adjust_all, s, t, h x y) refl;
            same_rest = rw (s, t, b x y) refl;
          }
        ]
      ]

  adjusted_dir-IsLocal :
      (make : DirOpArgs → Call) (args : DirOpArgs) (call : Call)
      → handles call ≡ args.dir ∷ []
      → ((x : NfsFh) → handles (make (record args { dir = x })) ≡ x ∷ [])
      → ((x : NfsFh) → blank (make (record args { dir = x })) ≡ blank call)
      → IsLocal call (adjusted_dir host junk here make args)
  unfolding adjusted_dir
  adjusted_dir-IsLocal make args call e h b =
      adjusted-IsLocal (λ fh. make (record args { dir = fh })) args.dir call e h b

  -- Every handle of a call is made local, and nothing else of it is changed; the call fails exactly if
  -- one of its handles does.
  pub adjust_handles_for_proc-IsLocal :
      (call : Call) → IsLocal call (adjust_handles_for_proc host junk here call)
  unfolding adjust_handles_for_proc handles blank adjust_all
  adjust_handles_for_proc-IsLocal null_call = record { local_handles = refl; same_rest = refl }
  adjust_handles_for_proc-IsLocal (getattr_call o) =
      adjusted-IsLocal _ o _ refl (λ x. refl) (λ x. refl)
  adjust_handles_for_proc-IsLocal (setattr_call o n g) =
      adjusted-IsLocal _ o _ refl (λ x. refl) (λ x. refl)
  adjust_handles_for_proc-IsLocal (lookup_call w) =
      adjusted_dir-IsLocal _ w _ refl (λ x. refl) (λ x. refl)
  adjust_handles_for_proc-IsLocal (access_call o w) =
      adjusted-IsLocal _ o _ refl (λ x. refl) (λ x. refl)
  adjust_handles_for_proc-IsLocal (readlink_call s) =
      adjusted-IsLocal _ s _ refl (λ x. refl) (λ x. refl)
  adjust_handles_for_proc-IsLocal (read_call f o n) =
      adjusted-IsLocal _ f _ refl (λ x. refl) (λ x. refl)
  adjust_handles_for_proc-IsLocal (write_call f b o h) =
      adjusted-IsLocal _ f _ refl (λ x. refl) (λ x. refl)
  adjust_handles_for_proc-IsLocal (create_call t h) =
      adjusted_dir-IsLocal _ t _ refl (λ x. refl) (λ x. refl)
  adjust_handles_for_proc-IsLocal (mkdir_call t n) =
      adjusted_dir-IsLocal _ t _ refl (λ x. refl) (λ x. refl)
  adjust_handles_for_proc-IsLocal (symlink_call t a d) =
      adjusted_dir-IsLocal _ t _ refl (λ x. refl) (λ x. refl)
  adjust_handles_for_proc-IsLocal (mknod_call t w) =
      adjusted_dir-IsLocal _ t _ refl (λ x. refl) (λ x. refl)
  adjust_handles_for_proc-IsLocal (remove_call o) =
      adjusted_dir-IsLocal _ o _ refl (λ x. refl) (λ x. refl)
  adjust_handles_for_proc-IsLocal (rmdir_call o) =
      adjusted_dir-IsLocal _ o _ refl (λ x. refl) (λ x. refl)
  adjust_handles_for_proc-IsLocal (rename_call f t) =
      adjusted_twice-IsLocal _ f.dir t.dir _ refl (λ x y. refl) (λ x y. refl)
  adjust_handles_for_proc-IsLocal (link_call f t) =
      adjusted_twice-IsLocal _ f t.dir _ refl (λ x y. refl) (λ x y. refl)
  adjust_handles_for_proc-IsLocal (readdir_call d k n) =
      adjusted-IsLocal _ d _ refl (λ x. refl) (λ x. refl)
  adjust_handles_for_proc-IsLocal (readdirplus_call d) =
      adjusted-IsLocal _ d _ refl (λ x. refl) (λ x. refl)
  adjust_handles_for_proc-IsLocal (fsstat_call r) =
      adjusted-IsLocal _ r _ refl (λ x. refl) (λ x. refl)
  adjust_handles_for_proc-IsLocal (fsinfo_call r) =
      adjusted-IsLocal _ r _ refl (λ x. refl) (λ x. refl)
  adjust_handles_for_proc-IsLocal (pathconf_call o) =
      adjusted-IsLocal _ o _ refl (λ x. refl) (λ x. refl)
  adjust_handles_for_proc-IsLocal (commit_call f) =
      adjusted-IsLocal _ f _ refl (λ x. refl) (λ x. refl)

  pub is_replicated-local :
      (call mine : Call)
      → adjust_handles_for_proc host junk here call ≡ some mine
      → is_replicated mine ≡ is_replicated call
  is_replicated-local call mine e =
      let same : some (blank mine) ≡ some (blank call) =
        ap (Option.map blank) (sym e)
        ∙ (adjust_handles_for_proc-IsLocal call).same_rest
        ∙ ap (Option.map (λ _. blank call)) e in
      sym (is_replicated-blank mine)
      ∙ ap is_replicated (some-injective _ _ same)
      ∙ is_replicated-blank call
