-- ===== src/Sessions/Kept.antt =====
-- What a clean-up of the session files leaves.
use tobs.Prelude.{
  ℕ, zero, suc, ◌+◌, ◌-◌, ◌*◌, ◌≤◌, ◌<◌, ◌≡◌, refl, ap, subst, Bool, true, false, List, [], ◌∷◌,
  take, length, arith, inl, inr, Bool-cases, All, if◌then◌else◌,
}
use Prim.Native.String.{String}
use mathlib.Core.List.{Permᴰ}
use tobs.Sessions.Newest.{readable, NewestFirst, scan_sessions-perm, scan_sessions-NewestFirst}
use tobs.Sessions.{
  Session, Found, SessionGc, Unlink, unlinked, not_unlinked, journal_not_unlinked, Report,
  scan_sessions, is_active, should_remove, keep_file, remove_file, clean_from, cleanup,
}

module _ (gc : SessionGc) (now : ℕ) (dry_run : Bool) (unlink : String → Unlink) where
  -- A session that may go: not the active one, and too old.
  abbrev pub MayGo : Session → Type 0
  MayGo s = (is_active gc s ≡ false) × (gc.max_age_days * 86_400 < now - s.mtime)

  should_remove-MayGo :
      (s : Session) (index : ℕ)
      → should_remove gc now s index ≡ true
      → MayGo s × (gc.keep_last_n ≤ index)
  unfolding should_remove
  should_remove-MayGo s index h = ground arith

  -- The loop's report: its removals are allowed and counted, and the newest sessions stay in front.
  record Reports (index : ℕ) (sessions : List Session) (r : Report) : Type 0 where
    removed : All MayGo r.removed
    counted : dry_run ≡ false → r.files_removed ≡ length r.removed
    dry : dry_run ≡ true → (r.kept ≡ sessions) × (r.errors ≡ 0)
    all : length r.kept + length r.removed ≡ length sessions
    newest : take (gc.keep_last_n - index) r.kept ≡ take (gc.keep_last_n - index) sessions

  take_cons :
      (k i : ℕ) (s : Session) (xs ys : List Session)
      → take (k - suc i) xs ≡ take (k - suc i) ys
      → take (k - i) (s ∷ xs) ≡ take (k - i) (s ∷ ys)
  take_cons k i s xs ys h = go (k - i) (k - suc i) (omega arith) h
    where
      go : (m j : ℕ) → j ≡ m - 1 → take j xs ≡ take j ys → take m (s ∷ xs) ≡ take m (s ∷ ys)
      go zero j e h = refl
      go (suc m) j e h = ap (λ l. s ∷ l) (subst (λ x. take x xs ≡ take x ys) (omega arith) h)

  take_none : (m : ℕ) (xs ys : List Session) → m ≡ 0 → take m xs ≡ take m ys
  take_none zero xs ys e = refl
  take_none (suc m) xs ys e = absurd (omega arith)

  kept-Reports :
      (index : ℕ) (s : Session) (sessions : List Session) (r : Report)
      → Reports (suc index) sessions r
      → Reports index (s ∷ sessions) (keep_file s r)
  kept-Reports index s sessions r h = record {
    removed = h.removed;
    counted = h.counted;
    dry = λ e. (ap (λ l. s ∷ l) (h.dry e).0, (h.dry e).1);
    all = omega (arith, h.all);
    newest = take_cons gc.keep_last_n index s r.kept sessions h.newest;
  }

  removed-Reports :
      (index : ℕ) (s : Session) (sessions : List Session) (r : Report) (answer : Unlink)
      → dry_run ≡ false
      → MayGo s
      → gc.keep_last_n ≤ index
      → Reports (suc index) sessions r
      → Reports index (s ∷ sessions) (remove_file answer s r)
  removed-Reports index s sessions r unlinked wet may late h = record {
    removed = (may, h.removed);
    counted = λ e. omega (arith, h.counted e);
    dry = λ e. absurd (ground arith);
    all = omega (arith, h.all);
    newest = take_none (gc.keep_last_n - index) r.kept (s ∷ sessions) (omega arith);
  }
  removed-Reports index s sessions r not_unlinked wet may late h = record {
    removed = h.removed;
    counted = h.counted;
    dry = λ e. absurd (ground arith);
    all = omega (arith, h.all);
    newest = take_cons gc.keep_last_n index s r.kept sessions h.newest;
  }
  removed-Reports index s sessions r journal_not_unlinked wet may late h = record {
    removed = (may, h.removed);
    counted = λ e. omega (arith, h.counted e);
    dry = λ e. absurd (ground arith);
    all = omega (arith, h.all);
    newest = take_none (gc.keep_last_n - index) r.kept (s ∷ sessions) (omega arith);
  }

  dry-Reports :
      (index : ℕ) (s : Session) (sessions : List Session) (r : Report)
      → dry_run ≡ true
      → Reports (suc index) sessions r
      → Reports index
          (s ∷ sessions)
          (record r { kept = s ∷ r.kept; files_removed = r.files_removed + 1 })
  dry-Reports index s sessions r dry h = record {
    removed = h.removed;
    counted = λ e. absurd (ground arith);
    dry = λ e. (ap (λ l. s ∷ l) (h.dry e).0, (h.dry e).1);
    all = omega (arith, h.all);
    newest = take_cons gc.keep_last_n index s r.kept sessions h.newest;
  }

  -- A session to remove, in a dry run and in another.
  acted-Reports :
      (index : ℕ) (s : Session) (sessions : List Session) (r : Report) (dry : Bool)
      → dry_run ≡ dry
      → MayGo s
      → gc.keep_last_n ≤ index
      → Reports (suc index) sessions r
      → Reports index (s ∷ sessions) (
          if dry
          then record r { kept = s ∷ r.kept; files_removed = r.files_removed + 1 }
          else remove_file (unlink s.stem) s r)
  acted-Reports index s sessions r true e may late h = dry-Reports index s sessions r e h
  acted-Reports index s sessions r false e may late h =
      removed-Reports index s sessions r (unlink s.stem) e may late h

  clean_from-Reports :
      (index : ℕ) (sessions : List Session)
      → Reports index sessions (clean_from gc now dry_run unlink index sessions)
  unfolding clean_from
  clean_from-Reports index [] = record {
    removed = tt;
    counted = λ e. refl;
    dry = λ e. (refl, refl);
    all = omega arith;
    newest = refl;
  }
  clean_from-Reports index (s ∷ sessions) =
      let r = clean_from gc now dry_run unlink (suc index) sessions in
      let rest = clean_from-Reports (suc index) sessions in
      elim (Bool-cases (should_remove gc now s index)) [
        | inl e ↦
            let (may, late) = should_remove-MayGo s index e in
            rw e (acted-Reports index s sessions r dry_run refl may late rest)
        | inr e ↦ rw e (kept-Reports index s sessions r rest)
      ]

  -- Every clean-up, whatever the file system answers: it removes only sessions that are not the active
  -- one and are older than the limit. The sessions it looks at are the readable files, in an order in
  -- which none is newer than one before it, and the first `keep_last_n` of them stay; none is lost
  -- otherwise. What it counts as removed is what it removed, unless it is a dry run, and a dry run leaves
  -- all sessions.
  pub cleanup-keeps :
      (files : List Found)
      → All MayGo (cleanup gc now dry_run unlink files).removed
        × Permᴰ (readable files) (scan_sessions files)
        × NewestFirst (scan_sessions files)
        × (take gc.keep_last_n (cleanup gc now dry_run unlink files).kept
            ≡ take gc.keep_last_n (scan_sessions files))
        × (length (cleanup gc now dry_run unlink files).kept
              + length (cleanup gc now dry_run unlink files).removed
            ≡ length (scan_sessions files))
        × (dry_run ≡ false
            → (cleanup gc now dry_run unlink files).files_removed
              ≡ length (cleanup gc now dry_run unlink files).removed)
        × (dry_run ≡ true → (cleanup gc now dry_run unlink files).kept ≡ scan_sessions files)
  unfolding cleanup
  cleanup-keeps files =
      let h = clean_from-Reports 0 (scan_sessions files) in
      let kept = (cleanup gc now dry_run unlink files).kept in
      let newest = subst (λ m. take m kept ≡ take m (scan_sessions files)) (omega arith) h.newest in
      (
        h.removed,
        scan_sessions-perm files,
        scan_sessions-NewestFirst files,
        newest,
        h.all,
        h.counted,
        λ e. (h.dry e).0,
      )
