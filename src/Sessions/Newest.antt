-- ===== src/Sessions/Newest.antt =====
-- The scan of the session files orders those that can be read, the newest first.
use mathlib.Core.List.{Permᴰ}
use tobs.Prelude.{
  ◌≤◌, refl, none, some, List, [], ◌∷◌, All, All-perm, All-imp, leb, arith, inl, inr, Bool-cases,
  Option-cases,
}
use tobs.Sessions.{Session, Found, insert, scan_sessions}

-- The files for which `stat` gives a time
abbrev pub readable : List Found → List Session
readable [] = []
readable (f ∷ files) = elim f.mtime [
  | none ↦ readable files
  | some mtime ↦ record { stem = f.stem; mtime = mtime } ∷ readable files
]

abbrev pub NoNewer : Session → Session → Type 0
NoNewer s t = t.mtime ≤ s.mtime

-- No session is newer than one before it.
abbrev pub NewestFirst : List Session → Type 0
NewestFirst [] = Unit
NewestFirst (s ∷ sessions) = All (NoNewer s) sessions × NewestFirst sessions

perm_same : (sessions : List Session) → Permᴰ sessions sessions
perm_same [] = Permᴰ.nil
perm_same (s ∷ sessions) = Permᴰ.cons refl (perm_same sessions)

insert-perm : (s : Session) (sessions : List Session) → Permᴰ (s ∷ sessions) (insert s sessions)
unfolding insert
insert-perm s [] = Permᴰ.cons refl Permᴰ.nil
insert-perm s (t ∷ ts) = elim (Bool-cases (leb t.mtime s.mtime)) [
  | inl e ↦ rw e (perm_same (s ∷ t ∷ ts))
  | inr e ↦ rw e (Permᴰ.trans (Permᴰ.swap refl refl) (Permᴰ.cons refl (insert-perm s ts)))
]

insert-NewestFirst :
    (s : Session) (sessions : List Session) → NewestFirst sessions → NewestFirst (insert s sessions)
unfolding insert
insert-NewestFirst s [] h = (tt, tt)
insert-NewestFirst s (t ∷ ts) h = elim (Bool-cases (leb t.mtime s.mtime)) [
  | inl e ↦
      let older : t.mtime ≤ s.mtime = ground arith in
      rw e ((older, All-imp ts (λ u (k : u.mtime ≤ t.mtime). omega arith) h.0), h)
  | inr e ↦
      let newer : s.mtime ≤ t.mtime = ground arith in
      rw e (All-perm (NoNewer t) (insert-perm s ts) (newer, h.0), insert-NewestFirst s ts h.1)
]

pub scan_sessions-perm : (files : List Found) → Permᴰ (readable files) (scan_sessions files)
unfolding scan_sessions
scan_sessions-perm [] = Permᴰ.nil
scan_sessions-perm (f ∷ files) = elim (Option-cases f.mtime) [
  | inl e ↦ rw e (scan_sessions-perm files)
  | inr (mtime, e) ↦
      let s : Session = record { stem = f.stem; mtime = mtime } in
      rw e (
        Permᴰ.trans (Permᴰ.cons refl (scan_sessions-perm files))
          (insert-perm s (scan_sessions files)))
]

pub scan_sessions-NewestFirst : (files : List Found) → NewestFirst (scan_sessions files)
unfolding scan_sessions
scan_sessions-NewestFirst [] = tt
scan_sessions-NewestFirst (f ∷ files) = elim (Option-cases f.mtime) [
  | inl e ↦ rw e (scan_sessions-NewestFirst files)
  | inr (mtime, e) ↦ rw e (
      insert-NewestFirst (record { stem = f.stem; mtime = mtime }) (scan_sessions files)
        (scan_sessions-NewestFirst files))
]
