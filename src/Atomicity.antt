-- ===== src/Atomicity.antt =====
-- Which operations of homework.c change nothing, and which have changed nothing when they fail.
pub mod Reads
pub mod Operations
pub mod Writing
pub mod Requests
use fuse_file_system.Prelude.{◌≡◌, refl, ◌∙◌, Bool, true, false, ◌⊎◌, inl, inr, if◌then◌else◌}
use fuse_file_system.State.{
  FsState, Errno, eio, Result, ok, err, fault, Action, and_then, ◌>>=◌, pure, fail, modify, fail_if,
  crash_if,
}

-- The state after the call is the state before it, however the call ends.
pub record ReadOnly {A : Type 0} (m : Action A) : Type 0 where
  pub same : (s : FsState) → (m s).1 ≡ s

-- An outcome that began at `s`: if it is an error `e`, then `Late e` or nothing was changed.
abbrev pub Clean : {A : Type 0} → (Errno → Type 0) → FsState → Result A × FsState → Type 0
Clean Late s (ok a, s') = Unit {0}
Clean Late s (err e, s') = Late e ⊎ (s' ≡ s)
Clean Late s (fault, s') = Unit {0}

-- An error other than those of `Late` leaves the state as it was.
pub record Atomic (Late : Errno → Type 0) {A : Type 0} (m : Action A) : Type 0 where
  pub clean : (s : FsState) → Clean Late s (m s)

-- The errors of `Late` are the only ones.
abbrev pub LateOnly : {A : Type 0} → (Errno → Type 0) → Result A × FsState → Type 0
LateOnly Late (ok a, s') = Unit {0}
LateOnly Late (err e, s') = Late e
LateOnly Late (fault, s') = Unit {0}

pub record FailsLate (Late : Errno → Type 0) {A : Type 0} (m : Action A) : Type 0 where
  pub late : (s : FsState) → LateOnly Late (m s)

module _ {A : Type 0} (Late : Errno → Type 0) where
  LateOnly-Clean : (r : Result A) (s1 s : FsState) → LateOnly Late (r, s1) → Clean Late s (r, s1)
  LateOnly-Clean (ok a) s1 s h = tt
  LateOnly-Clean (err e) s1 s h = inl h
  LateOnly-Clean fault s1 s h = tt

module _ {A B : Type 0} where
  and_then-state :
      (r : Result A) (s1 s : FsState) (k : A → Action B)
      → s1 ≡ s
      → ((a : A) → ReadOnly (k a))
      → (and_then (r, s1) k).1 ≡ s
  and_then-state (ok a) s1 s k e h = (h a).same s1 ∙ e
  and_then-state (err x) s1 s k e h = e
  and_then-state fault s1 s k e h = e

  pub ReadOnly-bind :
      (m : Action A) (k : A → Action B)
      → ReadOnly m
      → ((a : A) → ReadOnly (k a))
      → ReadOnly (m >>= k)
  ReadOnly-bind m k h hk = record { same = λ s. and_then-state (m s).0 (m s).1 s k (h.same s) hk }

  and_then-Clean :
      (Late : Errno → Type 0) (r : Result A) (s1 s : FsState) (k : A → Action B)
      → s1 ≡ s
      → ((a : A) → Atomic Late (k a))
      → Clean Late s (and_then (r, s1) k)
  and_then-Clean Late (ok a) s1 s k e h = rw (← e) ((h a).clean s1)
  and_then-Clean Late (err x) s1 s k e h = inr e
  and_then-Clean Late fault s1 s k e h = tt

  -- What comes before the first write reads only.
  pub Atomic-bind :
      (Late : Errno → Type 0) (m : Action A) (k : A → Action B)
      → ReadOnly m
      → ((a : A) → Atomic Late (k a))
      → Atomic Late (m >>= k)
  Atomic-bind Late m k h hk = record {
    clean = λ s. and_then-Clean Late (m s).0 (m s).1 s k (h.same s) hk;
  }

  and_then-LateOnly :
      (Late : Errno → Type 0) (r : Result A) (s1 : FsState) (k : A → Action B)
      → LateOnly Late (r, s1)
      → ((a : A) → FailsLate Late (k a))
      → LateOnly Late (and_then (r, s1) k)
  and_then-LateOnly Late (ok a) s1 k e h = (h a).late s1
  and_then-LateOnly Late (err x) s1 k e h = e
  and_then-LateOnly Late fault s1 k e h = tt

  -- Behind the first write only the errors of `Late` are left.
  pub FailsLate-bind :
      (Late : Errno → Type 0) (m : Action A) (k : A → Action B)
      → FailsLate Late m
      → ((a : A) → FailsLate Late (k a))
      → FailsLate Late (m >>= k)
  FailsLate-bind Late m k h hk = record {
    late = λ s. and_then-LateOnly Late (m s).0 (m s).1 k (h.late s) hk;
  }

  and_then-Clean_late :
      (Late : Errno → Type 0) (r : Result A) (s1 s : FsState) (k : A → Action B)
      → Clean Late s (r, s1)
      → ((a : A) → FailsLate Late (k a))
      → Clean Late s (and_then (r, s1) k)
  and_then-Clean_late Late (ok a) s1 s k e h =
      LateOnly-Clean Late (k a s1).0 (k a s1).1 s ((h a).late s1)
  and_then-Clean_late Late (err x) s1 s k e h = e
  and_then-Clean_late Late fault s1 s k e h = tt

  -- The first write may stand at the end of an atomic part.
  pub Atomic-bind_late :
      (Late : Errno → Type 0) (m : Action A) (k : A → Action B)
      → Atomic Late m
      → ((a : A) → FailsLate Late (k a))
      → Atomic Late (m >>= k)
  Atomic-bind_late Late m k h hk = record {
    clean = λ s. and_then-Clean_late Late (m s).0 (m s).1 s k (h.clean s) hk;
  }

module _ {A : Type 0} (Late : Errno → Type 0) where
  pub FailsLate-Atomic : (m : Action A) → FailsLate Late m → Atomic Late m
  FailsLate-Atomic m h = record { clean = λ s. LateOnly-Clean Late (m s).0 (m s).1 s (h.late s) }

  ReadOnly-Clean : (r : Result A) (s1 s : FsState) → s1 ≡ s → Clean Late s (r, s1)
  ReadOnly-Clean (ok a) s1 s h = tt
  ReadOnly-Clean (err e) s1 s h = inr h
  ReadOnly-Clean fault s1 s h = tt

  pub ReadOnly-Atomic : (m : Action A) → ReadOnly m → Atomic Late m
  ReadOnly-Atomic m h = record { clean = λ s. ReadOnly-Clean (m s).0 (m s).1 s (h.same s) }

module _ {A : Type 0} where
  pub ReadOnly-pure : (a : A) → ReadOnly (pure a)
  ReadOnly-pure a = record { same = λ s. refl }

  pub ReadOnly-fail : (e : Errno) → ReadOnly (fail {A = A} e)
  ReadOnly-fail e = record { same = λ s. refl }

  pub ReadOnly-if :
      (b : Bool) (m n : Action A) → ReadOnly m → ReadOnly n → ReadOnly (if b then m else n)
  ReadOnly-if true m n hm hn = hm
  ReadOnly-if false m n hm hn = hn

pub ReadOnly-fail_if : (b : Bool) (e : Errno) → ReadOnly (fail_if b e)
ReadOnly-fail_if true e = record { same = λ s. refl }
ReadOnly-fail_if false e = record { same = λ s. refl }

pub ReadOnly-crash_if : (b : Bool) → ReadOnly (crash_if b)
ReadOnly-crash_if true = record { same = λ s. refl }
ReadOnly-crash_if false = record { same = λ s. refl }

LateOnly-mono :
    {A : Type 0} (Late More : Errno → Type 0) (r : Result A) (s : FsState)
    → ((e : Errno) → Late e → More e)
    → LateOnly Late (r, s)
    → LateOnly More (r, s)
LateOnly-mono Late More (ok a) s h l = tt
LateOnly-mono Late More (err e) s h l = h e l
LateOnly-mono Late More fault s h l = tt

pub FailsLate-mono :
    {A : Type 0} (Late More : Errno → Type 0) (m : Action A)
    → ((e : Errno) → Late e → More e)
    → FailsLate Late m
    → FailsLate More m
FailsLate-mono Late More m h l = record {
  late = λ s. LateOnly-mono Late More (m s).0 (m s).1 h (l.late s);
}
