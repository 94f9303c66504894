-- ===== src/Vfs/Times.antt =====
-- What `vfs_utimens` of src/vfs.c leaves for `vfs_lstat` to show.
use mathlib.Core.Option
use lite_bsd.Prelude.{
  ℕ, ◌==◌, ◌*◌, ◌/◌, ◌%◌, ◌^◌, ◌≤◌, ◌<◌, ◌≡◌, ◌≢◌, ◌⊎◌, refl, ap, ◌∙◌, inl, inr, Bool, true, false,
  ltb, arith, none, some, List, [], ◌∷◌, codes, bytes_eq, Bool-cases,
}
use lite_bsd.Vfs.Node.{Node, Time}
use lite_bsd.Vfs.Lookup.{Vfs, Env, resolved, find_in, find_node, synth_lookup}
use lite_bsd.Vfs.Ops.{update_in, update}
use lite_bsd.Vfs.Stat.{
  Stat, fill_stat, vfs_lstat, new_time, utime_now, utime_omit, Times, at_once, given, bad_time,
  bad_times, stamped, apply_utimens, is_device, vfs_futimens, no_follow, vfs_utimens,
}

find_in-update_in :
    (p : List ℕ) (f : Node → Node) (ns : List Node)
    → ((n : Node) → (f n).path ≡ n.path)
    → find_in p (update_in p f ns) ≡ Option.map f (find_in p ns)
unfolding find_in update_in
find_in-update_in p f [] k = refl
find_in-update_in p f (n ∷ ns) k = elim (Bool-cases (bytes_eq n.path p)) [
  | inl here ↦
      let moved : bytes_eq (f n).path p ≡ true = ap (λ q. bytes_eq q p) (k n) ∙ here in
      rw here (rw moved refl)
  | inr there ↦ rw there (rw there (find_in-update_in p f ns k))
]

find_node-update :
    (p : List ℕ) (f : Node → Node) (fs : Vfs)
    → ((n : Node) → (f n).path ≡ n.path)
    → find_node (update p f fs) p ≡ Option.map f (find_node fs p)
unfolding find_node update
find_node-update p f fs k = elim (Bool-cases (bytes_eq p (codes "/"))) [
  | inl root ↦ rw root refl
  | inr below ↦ rw below (find_in-update_in p f fs.nodes k)
]

-- A time as the clock gives it.
abbrev pub clock : ℕ → Time
clock ticks = record { sec = ticks / 100; nsec = ticks % 100 * 10000000 }

-- The time that a pair of seconds and nanoseconds asks for, with UTIME_NOW and UTIME_OMIT of vfs.h.
pub data Asks (ticks sec nsec : ℕ) (old : Time) : Time → Type 0 where
  now : nsec ≡ 0x3fffffff → Asks ticks sec nsec old (clock ticks)
  omit : nsec ≡ 0x3ffffffe → Asks ticks sec nsec old old
  exact :
      nsec ≤ 999999999 → sec < 2 ^ 31 → Asks ticks sec nsec old (record { sec = sec; nsec = nsec })

-- A pair that is none of them.
abbrev pub OutOfRange : ℕ → ℕ → Type 0
OutOfRange sec nsec =
    (nsec ≢ 0x3fffffff) × (nsec ≢ 0x3ffffffe) × ((999999999 < nsec) ⊎ (2 ^ 31 ≤ sec))

abbrev pub Refused : Times → Type 0
Refused at_once = ⊥
Refused (given asec ansec msec mnsec) = OutOfRange asec ansec ⊎ OutOfRange msec mnsec

-- The two times that are asked for.
abbrev pub AsksBoth : ℕ → Times → Stat → Stat → Type 0
AsksBoth ticks at_once st st' = (st'.atim ≡ clock ticks) × (st'.mtim ≡ clock ticks)
AsksBoth ticks (given asec ansec msec mnsec) st st' =
    Asks ticks asec ansec st.atim st'.atim × Asks ticks msec mnsec st.mtim st'.mtim

-- The status `st` with the times asked for, and the change now.
pub record Restamped (ticks : ℕ) (times : Times) (st st' : Stat) : Type 0 where
  pub asked : AsksBoth ticks times st st'
  pub changed : st'.ctim ≡ clock ticks
  pub others : st' ≡ record st { atim = st'.atim; mtim = st'.mtim; ctim = st'.ctim }

bad_time-OutOfRange : (sec nsec : ℕ) → bad_time sec nsec ≡ true → OutOfRange sec nsec
bad_time-OutOfRange sec nsec h = (
  λ e. ground arith,
  λ e. ground arith,
  elim (Bool-cases (ltb 999999999 nsec)) [
    | inl large ↦ inl (ground arith)
    | inr small ↦ inr (ground arith)
  ],
)

new_time-Asks :
    (ticks sec nsec : ℕ) (old : Time)
    → bad_time sec nsec ≡ false
    → Asks ticks sec nsec old (new_time ticks sec nsec old)
new_time-Asks ticks sec nsec old h = elim (Bool-cases (nsec == utime_now)) [
  | inl is_now ↦ rw is_now (now (ground arith))
  | inr not_now ↦ elim (Bool-cases (nsec == utime_omit)) [
    | inl is_omit ↦ rw (not_now, is_omit) (omit (ground arith))
    | inr not_omit ↦ rw (not_now, not_omit) (exact (ground arith) (ground arith))
  ]
]

bad_times-Refused : (times : Times) → bad_times times ≡ true → Refused times
unfolding bad_times
bad_times-Refused at_once h = ground arith
bad_times-Refused (given asec ansec msec mnsec) h = elim (Bool-cases (bad_time asec ansec)) [
  | inl first ↦ inl (bad_time-OutOfRange asec ansec first)
  | inr good ↦ inr (bad_time-OutOfRange msec mnsec (ground arith))
]

stamped-Restamped :
    (fb_size ticks : ℕ) (times : Times) (n : Node)
    → bad_times times ≡ false
    → Restamped ticks times (fill_stat fb_size n) (fill_stat fb_size (stamped ticks times n))
unfolding fill_stat stamped bad_times
stamped-Restamped fb_size ticks at_once n h = record {
  asked = (refl, refl);
  changed = refl;
  others = refl;
}
stamped-Restamped fb_size ticks (given asec ansec msec mnsec) n h = record {
  asked = (
    new_time-Asks ticks asec ansec n.atime (ground arith),
    new_time-Asks ticks msec mnsec n.mtime (ground arith),
  );
  changed = refl;
  others = refl;
}

stamped-path : (ticks : ℕ) (times : Times) (n : Node) → (stamped ticks times n).path ≡ n.path
unfolding stamped
stamped-path ticks at_once n = refl
stamped-path ticks (given asec ansec msec mnsec) n = refl

-- What the call leaves for the path: refused times change nothing, others are shown.
abbrev pub Stamps : Env → ℕ → List ℕ → Times → Vfs → Vfs × Bool → Type 0
Stamps env fb_size path times fs (fs', false) = Refused times × (fs' ≡ fs)
Stamps env fb_size path times fs (fs', true) =
    (st : Stat) × (st' : Stat) × (vfs_lstat env fb_size path fs ≡ some st)
    × (vfs_lstat env fb_size path fs' ≡ some st')
    × Restamped env.ticks times st st'

lstat-real :
    (env : Env) (fb_size : ℕ) (path : List ℕ) (fs : Vfs)
    → synth_lookup env (resolved env path) ≡ none
    → vfs_lstat env fb_size path fs
      ≡ Option.map (fill_stat fb_size) (find_node fs (resolved env path))
unfolding vfs_lstat
lstat-real env fb_size path fs e = rw e refl

apply-Stamps :
    (env : Env) (fb_size : ℕ) (path : List ℕ) (times : Times) (fs : Vfs) (n : Node)
    → synth_lookup env (resolved env path) ≡ none
    → find_node fs (resolved env path) ≡ some n
    → Stamps env fb_size path times fs (apply_utimens env times (resolved env path) fs)
unfolding apply_utimens
apply-Stamps env fb_size path times fs n real found =
    let r = resolved env path in
    elim (Bool-cases (bad_times times)) [
      | inl bad ↦ rw bad (bad_times-Refused times bad, refl)
      | inr good ↦ rw good (
        fill_stat fb_size n,
        fill_stat fb_size (stamped env.ticks times n),
        lstat-real env fb_size path fs real ∙ ap (Option.map (fill_stat fb_size)) found,
        lstat-real env fb_size path (update r (stamped env.ticks times) fs) real
            ∙ ap (Option.map (fill_stat fb_size)) (
                find_node-update r (stamped env.ticks times) fs (stamped-path env.ticks times)
                ∙ ap (Option.map (stamped env.ticks times)) found),
        stamped-Restamped fb_size env.ticks times n good,
      )
    ]

-- `vfs_utimens` of a path that is no generated one and leads to a node other than a device, without
-- following a link. It returns -1 and changes nothing only where a pair is out of range: neither
-- UTIME_NOW nor UTIME_OMIT, and with negative seconds or nanoseconds not from 0 to 999999999. It
-- returns 0 only where no pair is, and then `vfs_lstat` shows for each pair the time of the clock for
-- UTIME_NOW, the time before for UTIME_OMIT and else the pair, both those of the clock for NULL, the
-- clock as the time of the change, and the rest as before.
pub vfs_utimens-Stamps :
    (env : Env) (fb_size : ℕ) (path : List ℕ) (times : Times) (fs : Vfs) (n : Node)
    → synth_lookup env (resolved env path) ≡ none
    → find_node fs (resolved env path) ≡ some n
    → is_device n ≡ false
    → Stamps env fb_size path times fs (vfs_utimens env path times no_follow fs)
unfolding vfs_utimens vfs_futimens
vfs_utimens-Stamps env fb_size path times fs n real found plain =
    rw real (rw found (rw plain (apply-Stamps env fb_size path times fs n real found)))
