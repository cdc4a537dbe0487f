-- ===== src/LockFile/Exclusion.antt =====
-- Two processes never hold the lock of a device together, if no process ends too early.
use serial_ip.Base.{
  ℕ, Option, none, some, Bool, true, false, ◌≡◌, ◌≢◌, ◌⊎◌, refl, sym, arith, ◌==◌, inl, inr, ◌∙◌,
  ap, zero, suc, ◌<◌, Bool-cases, Option-cases,
}
use serial_ip.Base.Integer.{ℤ, pos}
use serial_ip.Base.Text.{Text, same_text-other, same_text_refl}
use serial_ip.LockFile.{read_owner, is_stale, is_own}
use serial_ip.LockFile.Files.{
  FileSystem, System, Linked, link, linked, file_exists, refused, unlink, rename, pid_bytes,
}
use serial_ip.LockFile.Taken.{signed-pid_bytes}
use serial_ip.LockFile.Race.{
  Stage, IsProcess, Race, moved, verified, unverified, tested, Move, link_first, link_exists,
  link_refused, open_file, open_fails, read_pid, read_fails, kill_pid, remove, link_second,
  link_lost, drop, leave, release, turn, exit, Reach, start, later, waits, owns, breaks, IsFair,
  LooksAt, MayEnd, OfLive, IsLive, SeesLive, Inv, linking, opening, reading, testing, removing,
  sleeping, dropping, leaving, holding, done,
}

abbrev is_linked : Linked → Bool
is_linked (linked fs) = true
is_linked _ = false

true_is_not_false : true ≢ false
true_is_not_false e = cc

some_same : {a b : ℕ} → some a ≡ some b → a ≡ b
some_same e = cc

some_is_not_none : {o : Option ℕ} {a : ℕ} → o ≡ some a → o ≢ none
some_is_not_none e f = cc

not_linked : (answer : Linked) (to : FileSystem) → answer ≡ linked to → is_linked answer ≢ false
not_linked answer to e f = cc

target_of : (fs to : FileSystem) → linked fs ≡ linked to → to ≡ fs
target_of fs to e = cc

same_cases : (p q : ℕ) → (((p == q) ≡ true) × (p ≡ q)) ⊎ (((p == q) ≡ false) × (p ≢ q))
same_cases p q = ground arith

module _ (os : System) (lockfile : Text) where
  -- What a link and the removal of a name leave.
  link-linked :
      (attempt : ℕ) (from : Text) (fs to : FileSystem)
      → link os attempt from lockfile fs ≡ linked to
      → (fs.file_at lockfile ≡ none)
        × (i : ℕ) × (fs.file_at from ≡ some i)
        × (to ≡ record fs { file_at = rename fs.file_at lockfile (some i) })
  unfolding link
  link-linked attempt from fs to e = elim (Bool-cases (os.denies_link attempt)) [
    | inl d ↦ absurd (not_linked refused to (rw d at e) refl)
    | inr d ↦ elim (Option-cases (fs.file_at from)) [
      | inl f ↦ absurd (not_linked refused to (rw (d, f) at e) refl)
      | inr (i, f) ↦ elim (Option-cases (fs.file_at lockfile)) [
        | inl l ↦ (l, i, f, target_of _ to (rw (d, f, l) at e))
        | inr (j, l) ↦ absurd (not_linked file_exists to (rw (d, f, l) at e) refl)
      ]
    ]
  ]

  unlink-content : (path : Text) (fs : FileSystem) → (unlink os path fs).1.content ≡ fs.content
  unfolding unlink
  unlink-content path fs = elim (Bool-cases (os.denies_unlink path)) [
    | inl d ↦ rw d
    | inr d ↦ elim (Option-cases (fs.file_at path)) [ inl f ↦ rw (d, f) | inr (i, f) ↦ rw (d, f) ]
  ]

  unlink-other :
      (path other : Text) (fs : FileSystem)
      → path ≢ other
      → (unlink os path fs).1.file_at other ≡ fs.file_at other
  unfolding unlink
  unlink-other path other fs apart = ground (arith, same_text-other path other apart)

  unlink-less :
      (path other : Text) (fs : FileSystem) (i : ℕ)
      → (unlink os path fs).1.file_at other ≡ some i
      → fs.file_at other ≡ some i
  unfolding unlink
  unlink-less path other fs i e = ground arith

-- The number in the file of a process is its own.
read_owner-own :
    (os : System) (unset : ℤ) (lockfile : Text) (fs : FileSystem) (i p : ℕ) (pid : ℤ)
    → fs.content i ≡ pid_bytes p
    → IsProcess p
    → read_owner os unset lockfile fs i ≡ some pid
    → pid ≡ pos p
read_owner-own os unset lockfile fs i p pid c h e = ground (arith, signed-pid_bytes p h.small)

-- A live process is not taken for a dead one.
tested-IsLive :
    (os : System) (alive : ℕ → Bool) (pid : ℤ)
    → IsLive alive pid
    → is_stale (tested os alive pid).0 ≡ false
tested-IsLive os alive pid (p, proc, lives, is) = rw is (live p proc.positive lives)
  where
    live : (n : ℕ) → 0 < n → alive n ≡ true → is_stale (tested os alive (pos n)).0 ≡ false
    live zero h e = absurd (omega (arith, h))
    live (suc n) h e = rw e refl

-- The ways that a verification ends.
verified-not_stale : (r : ℤ × ℤ) (p : ℕ) → is_stale r.0 ≡ false → verified false r p ≡ leaving
verified-not_stale r p e = rw e refl

record Calm (file : ℕ → ℕ) (alive : ℕ → Bool) (before after : Stage) : Type 0 where
  no_wait : waits after ≡ false
  no_break : breaks after ≡ false
  sees : SeesLive file alive after
  still_owns : owns after ≡ true → owns before ≡ true

-- Behind a verification a process waits and breaks no more, if the owner is not dead.
verified-Calm :
    (file : ℕ → ℕ) (alive : ℕ → Bool) (b : Bool) (before : Stage) (r : ℤ × ℤ) (p : ℕ)
    → is_stale r.0 ≡ false
    → (b ≡ true → owns before ≡ true)
    → Calm file alive before (verified b r p)
verified-Calm file alive false before r p e o =
    rw (verified-not_stale r p e)
      (record { no_wait = refl; no_break = refl; sees = tt; still_owns = λ x. cc })
verified-Calm file alive true before r p e o = elim (Bool-cases (is_own r p)) [
  | inl y ↦ rw y (record { no_wait = refl; no_break = refl; sees = tt; still_owns = λ x. o refl })
  | inr y ↦ rw y (record { no_wait = refl; no_break = refl; sees = tt; still_owns = λ x. cc })
]

module _ (os : System) (unset : ℤ) {lockfile : Text} {tmpname : ℕ → Text} {file : ℕ → ℕ}
    (fair : IsFair lockfile tmpname file) where
  -- What a move of process `p` to `to` and `after` has to keep for the invariant.
  record Fits (s : Race) (p : ℕ) (to : FileSystem) (after : Stage) : Type 0 where
    same_content : to.content ≡ s.fs.content
    others_tmp : (q : ℕ) → p ≢ q → to.file_at (tmpname q) ≡ s.fs.file_at (tmpname q)
    own_lock : owns after ≡ true → to.file_at lockfile ≡ some (file p)
    others_lock :
        (q : ℕ) → p ≢ q → owns (s.stage q) ≡ true → to.file_at lockfile ≡ s.fs.file_at lockfile
    owners :
        (i : ℕ) → to.file_at lockfile ≡ some i → (s.fs.file_at lockfile ≡ some i) ⊎ (i ≡ file p)
    no_wait : waits after ≡ false
    no_break : breaks after ≡ false
    sees : SeesLive file s.alive after

  Fits-Inv :
      (s : Race) (p : ℕ) (to : FileSystem) (after : Stage)
      → IsProcess p
      → s.alive p ≡ true
      → Fits s p to after
      → Inv lockfile tmpname file s
      → Inv lockfile tmpname file (record s { fs = to; stage = moved s.stage p after })
  Fits-Inv s p to after proc lives f inv = record {
    ready = λ q w. elim (same_cases p q) [
      | inl (t, e) ↦ absurd (true_is_not_false (sym (rw t at w) ∙ f.no_wait))
      | inr (t, n) ↦ rw (f.others_tmp q n) (inv.ready q (rw t at w))
    ];
    numbered = λ q. rw f.same_content (inv.numbered q);
    owned = λ q o. elim (same_cases p q) [
      | inl (t, e) ↦ rw (← e) (f.own_lock (rw t at o))
      | inr (t, n) ↦ rw (f.others_lock q n (rw t at o)) (inv.owned q (rw t at o))
    ];
    live =
        λ i e. elim (f.owners i e) [ inl old ↦ inv.live i old | inr new ↦ (p, proc, lives, new) ];
    seen = λ q. elim (Bool-cases (p == q)) [ inl t ↦ rw t f.sees | inr t ↦ rw t (inv.seen q) ];
    unbroken =
        λ q. elim (Bool-cases (p == q)) [ inl t ↦ rw t f.no_break | inr t ↦ rw t (inv.unbroken q) ];
  }

  -- A move that changes no file.
  still-Fits :
      (s : Race) (p : ℕ) (before after : Stage)
      → Inv lockfile tmpname file s
      → s.stage p ≡ before
      → Calm file s.alive before after
      → Fits s p s.fs after
  still-Fits s p before after inv is calm = record {
    same_content = refl;
    others_tmp = λ q n. refl;
    own_lock = λ x. inv.owned p (rw is (calm.still_owns x));
    others_lock = λ q n x. refl;
    owners = λ i e. inl e;
    no_wait = calm.no_wait;
    no_break = calm.no_break;
    sees = calm.sees;
  }

  -- The temporary name goes.
  unlink-Fits :
      (s : Race) (p : ℕ) (before after : Stage)
      → Inv lockfile tmpname file s
      → s.stage p ≡ before
      → Calm file s.alive before after
      → Fits s p (unlink os (tmpname p) s.fs).1 after
  unlink-Fits s p before after inv is calm = record {
    same_content = unlink-content os lockfile (tmpname p) s.fs;
    others_tmp =
        λ q n. unlink-other os lockfile (tmpname p) (tmpname q) s.fs (λ e. n (fair.own_name p q e));
    own_lock = λ x.
        rw (unlink-other os lockfile (tmpname p) lockfile s.fs (fair.apart p))
          (inv.owned p (rw is (calm.still_owns x)));
    others_lock = λ q n x. unlink-other os lockfile (tmpname p) lockfile s.fs (fair.apart p);
    owners = λ i e. inl (unlink-less os lockfile (tmpname p) lockfile s.fs i e);
    no_wait = calm.no_wait;
    no_break = calm.no_break;
    sees = calm.sees;
  }

  link-Fits :
      (s : Race) (p i : ℕ)
      → Inv lockfile tmpname file s
      → i ≡ file p
      → s.fs.file_at lockfile ≡ none
      → Fits s p (record s.fs { file_at = rename s.fs.file_at lockfile (some i) }) dropping
  link-Fits s p i inv own free = record {
    same_content = refl;
    others_tmp = λ q n. rw (same_text-other lockfile (tmpname q) (λ e. fair.apart q (sym e)));
    own_lock = λ x. rw (same_text_refl lockfile, own);
    others_lock = λ q n x. absurd (some_is_not_none (inv.owned q x) free);
    owners = λ j e. inr (some_same (sym (rw (same_text_refl lockfile) at e)) ∙ own);
    no_wait = refl;
    no_break = refl;
    sees = tt;
  }

  release-Fits :
      (s : Race) (p : ℕ)
      → Inv lockfile tmpname file s
      → s.stage p ≡ holding
      → Fits s p (unlink os lockfile s.fs).1 done
  release-Fits s p inv is = record {
    same_content = unlink-content os lockfile lockfile s.fs;
    others_tmp =
        λ q n. unlink-other os lockfile lockfile (tmpname q) s.fs (λ e. fair.apart q (sym e));
    own_lock = λ x. cc;
    others_lock = λ q n x.
        absurd (n (fair.own_file p q (some_same (sym (inv.owned p (rw is refl)) ∙ inv.owned q x))));
    owners = λ i e. inl (unlink-less os lockfile lockfile lockfile s.fs i e);
    no_wait = refl;
    no_break = refl;
    sees = tt;
  }

  -- What a process reads in a file of a live process is that process's number.
  read-IsLive :
      (s : Race) (i : ℕ) (pid : ℤ)
      → Inv lockfile tmpname file s
      → OfLive file s.alive i
      → read_owner os unset lockfile s.fs i ≡ some pid
      → IsLive s.alive pid
  read-IsLive s i pid inv (q, proc, lives, is) e = (
    q,
    proc,
    lives,
    read_owner-own os unset lockfile s.fs i q pid (rw is (inv.numbered q)) proc e,
  )

  Move-Fits :
      (s : Race) (p : ℕ) {before : Stage} {to : FileSystem} {after : Stage}
      → Inv lockfile tmpname file s
      → s.stage p ≡ before
      → Move os unset lockfile tmpname p s.alive s.fs before to after
      → Fits s p to after
  Move-Fits s p inv is (link_first {to} e) =
      let (free, i, t, same) = link-linked os lockfile 0 (tmpname p) s.fs to e in
      rw same (link-Fits s p i inv (some_same (sym t ∙ inv.ready p (rw is refl))) free)
  Move-Fits s p inv is (link_exists e) =
      still-Fits s p linking (opening false) inv is
        (record { no_wait = refl; no_break = refl; sees = tt; still_owns = λ x. cc })
  Move-Fits s p inv is (link_refused e) =
      still-Fits s p linking leaving inv is
        (record { no_wait = refl; no_break = refl; sees = tt; still_owns = λ x. cc })
  Move-Fits s p inv is (open_file {b} {i} open_ok e) =
      still-Fits s p (opening b) (reading b i) inv is (record {
        no_wait = refl;
        no_break = refl;
        sees = inv.live i e;
        still_owns = λ x. elim (Bool-cases b) [
          | inl t ↦ rw t refl
          | inr t ↦ absurd (true_is_not_false (sym x ∙ rw t refl))
        ];
      })
  Move-Fits s p inv is (open_fails {b} e) =
      still-Fits s p (opening b) (verified b unverified p) inv is
        (verified-Calm file s.alive b (opening b) unverified p refl (λ t. rw t refl))
  Move-Fits s p inv is (read_pid {b} {i} {pid} e) =
      still-Fits s p (reading b i) (testing b pid) inv is (record {
        no_wait = refl;
        no_break = refl;
        sees = read-IsLive s i pid inv (rw is at (inv.seen p)) e;
        still_owns = λ x. elim (Bool-cases b) [
          | inl t ↦ rw t refl
          | inr t ↦ absurd (true_is_not_false (sym x ∙ rw t refl))
        ];
      })
  Move-Fits s p inv is (read_fails {b} {i} e) =
      still-Fits s p (reading b i) (verified b unverified p) inv is
        (verified-Calm file s.alive b (reading b i) unverified p refl (λ t. rw t refl))
  Move-Fits s p inv is (kill_pid {b} {pid}) =
      still-Fits s p (testing b pid) (verified b (tested os s.alive pid) p) inv is (
        verified-Calm file s.alive b (testing b pid) (tested os s.alive pid) p
          (tested-IsLive os s.alive pid (rw is at (inv.seen p))) (λ t. rw t refl))
  Move-Fits s p inv is remove = absurd (true_is_not_false (rw is at (inv.unbroken p)))
  Move-Fits s p inv is (link_second e) = absurd (true_is_not_false (rw is at (inv.unbroken p)))
  Move-Fits s p inv is (link_lost e) = absurd (true_is_not_false (rw is at (inv.unbroken p)))
  Move-Fits s p inv is drop =
      unlink-Fits s p dropping (opening true) inv is
        (record { no_wait = refl; no_break = refl; sees = tt; still_owns = λ x. refl })
  Move-Fits s p inv is leave =
      unlink-Fits s p leaving done inv is
        (record { no_wait = refl; no_break = refl; sees = tt; still_owns = λ x. cc })
  Move-Fits s p inv is release = release-Fits s p inv is

  -- Whoever is not the process that ends is as alive as before.
  stays_alive : (alive : ℕ → Bool) (p q : ℕ) → p ≢ q → alive q ≡ true → moved alive p false q ≡ true
  stays_alive alive p q n e = elim (same_cases p q) [
    | inl (t, same) ↦ absurd (n same)
    | inr (t, other) ↦ rw t e
  ]

  seen-MayEnd :
      (alive : ℕ → Bool) (p : ℕ) (stage : Stage)
      → ¬ LooksAt file p stage
      → SeesLive file alive stage
      → SeesLive file (moved alive p false) stage
  seen-MayEnd alive p (reading b i) unseen (q, proc, lives, is) =
      (q, proc, stays_alive alive p q (λ e. unseen (rw e is)) lives, is)
  seen-MayEnd alive p (testing b pid) unseen (q, proc, lives, is) =
      (q, proc, stays_alive alive p q (λ e. unseen (rw e is)) lives, is)
  seen-MayEnd alive p linking unseen sees = tt
  seen-MayEnd alive p (opening b) unseen sees = tt
  seen-MayEnd alive p removing unseen sees = tt
  seen-MayEnd alive p sleeping unseen sees = tt
  seen-MayEnd alive p dropping unseen sees = tt
  seen-MayEnd alive p leaving unseen sees = tt
  seen-MayEnd alive p holding unseen sees = tt
  seen-MayEnd alive p done unseen sees = tt

  exit-Inv :
      (s : Race) (p : ℕ)
      → MayEnd lockfile file s p
      → Inv lockfile tmpname file s
      → Inv lockfile tmpname file (record s { alive = moved s.alive p false })
  exit-Inv s p may inv = record {
    ready = inv.ready;
    numbered = inv.numbered;
    owned = inv.owned;
    live = λ i e.
        let (q, proc, lives, is) = inv.live i e in
        (q, proc, stays_alive s.alive p q (λ same. may.gone (rw same (e ∙ ap some is))) lives, is);
    seen = λ q. seen-MayEnd s.alive p (s.stage q) (may.unseen q) (inv.seen q);
    unbroken = inv.unbroken;
  }

  Reach-Inv :
      {s t : Race}
      → Inv lockfile tmpname file s
      → Reach os unset lockfile tmpname (MayEnd lockfile file) s t
      → Inv lockfile tmpname file t
  Reach-Inv inv start = inv
  Reach-Inv {s} inv (later {t = t} r (turn p {to} {after} proc lives mv)) =
      let before = Reach-Inv inv r in
      Fits-Inv t p to after proc lives (Move-Fits t p before refl mv) before
  Reach-Inv {s} inv (later {t = t} r (exit p may)) = exit-Inv t p may (Reach-Inv inv r)

  -- From a state with the invariant, which holds at the start when no lock file stands and each
  -- process has written its temporary file, and whatever the system refuses, no order of the calls
  -- of `create_uucp_lockfile` (link, open, read, kill and unlink each being a step of its own), of
  -- the removals by holders and of ends of processes leads to a state in which two processes hold
  -- the lock, provided that a process ends only when it has returned without the lock or given it
  -- up, its lock file no longer stands, and no other process has that file open or is about to
  -- test its number.
  pub mutual_exclusion :
      {s t : Race}
      → Inv lockfile tmpname file s
      → Reach os unset lockfile tmpname (MayEnd lockfile file) s t
      → (p q : ℕ) → t.stage p ≡ holding
      → t.stage q ≡ holding
      → p ≡ q
  mutual_exclusion inv r p q hp hq =
      let at_end = Reach-Inv inv r in
      fair.own_file p q
        (some_same (sym (at_end.owned p (rw hp refl)) ∙ at_end.owned q (rw hq refl)))
