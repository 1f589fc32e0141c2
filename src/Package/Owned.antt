-- ===== src/Package/Owned.antt =====
-- block-ts/blk-proxy: how the steps of a test change a count of what is live, and what a test holds when
-- its clean-up begins.
use cns_virtblk_ts.Base.{
  ℕ, ◌≡◌, refl, ◌∙◌, Bool, true, false, Option, none, some, ◌⊎◌, inl, inr, if◌then◌else◌,
}
use cns_virtblk_ts.Base.Exec.{Errno, Result, ok, err, Status, Exec, ended_by, continue, ◌>>=◌}
use cns_virtblk_ts.Package.{Test, aside, reading, finish, run_test, run_or_end}

-- How many a pointer owns.
abbrev pub held : {A : Type 0} → Option A → ℕ
held (some a) = 1
held none = 0

module _ {W : Type 0} (live : W → ℕ) where
  -- An operation that leaves as many as there were.
  abbrev pub Keeps : {A : Type 0} → Exec W A → Type 0
  Keeps m = (w : W) → live (m w).1 ≡ live w

  continue-Keeps :
      {A B : Type 0} (r : Result A) (f : A → Exec W B) (w : W)
      → ((a : A) → Keeps (f a))
      → live (continue r f w).1 ≡ live w
  continue-Keeps (ok a) f w k = k a w
  continue-Keeps (err e) f w k = refl

  pub >>=-Keeps :
      {A B : Type 0} (m : Exec W A) (f : A → Exec W B)
      → Keeps m
      → ((a : A) → Keeps (f a))
      → Keeps (m >>= f)
  >>=-Keeps m f h k w = continue-Keeps (m w).0 f (m w).1 k ∙ h w

  pub finish-live : (r : Status) (t : Status × W) → live (finish r t).1 ≡ live t.1
  finish-live (ok u) t = refl
  finish-live (err e) t = refl

-- `own n v` is the count when n are live beside what the variables v hold.
module _ {V W : Type 0} (own : ℕ → V → ℕ) (live : W → ℕ) where
  abbrev pub Owns : ℕ → V × W → Type 0
  Owns n (v, w) = live w ≡ own n v

  abbrev pub Stays : {A : Type 0} → Test V W A → Type 0
  Stays m = (n : ℕ) (s : V × W) → Owns n s → Owns n (m s).1

  pub aside-Stays : {A : Type 0} (m : Exec W A) → Keeps live m → Stays (aside m)
  aside-Stays m k n (v, w) h = k w ∙ h

  pub reading-Stays :
      {A : Type 0} (m : V → Exec W A) → ((v : V) → Keeps live (m v)) → Stays (reading m)
  reading-Stays m k n (v, w) h = k v w ∙ h

  continue-Stays :
      {A B : Type 0} (n : ℕ) (r : Result A) (f : A → Test V W B) (s : V × W)
      → Owns n s
      → ((a : A) → Stays (f a))
      → Owns n (continue r f s).1
  continue-Stays n (ok a) f s h k = k a n s h
  continue-Stays n (err e) f s h k = h

  pub >>=-Stays :
      {A B : Type 0} (m : Test V W A) (f : A → Test V W B)
      → Stays m
      → ((a : A) → Stays (f a))
      → Stays (m >>= f)
  >>=-Stays m f h k n s o = continue-Stays n (m s).0 f (m s).1 (h n s o) k

  -- A step beside the variables, by what it gives.
  pub aside-either :
      {A B : Type 0} (m : Exec W A) (f : A → Test V W B) (n : ℕ) (v : V) (w : W)
      → ((a : A) (w' : W) → m w ≡ (ok a, w') → Owns n (f a (v, w')).1)
      → ((e : Errno) (w' : W) → m w ≡ (err e, w') → Owns n (v, w'))
      → Owns n ((aside m >>= f) (v, w)).1
  aside-either {A = A} m f n v w k l = by_result (m w).0 (m w).1 refl
    where
      by_result : (r : Result A) (w' : W) → m w ≡ (r, w') → Owns n (continue r f (v, w')).1
      by_result (ok a) w' e = k a w' e
      by_result (err x) w' e = l x w' e

  -- The same for a step that begins with these variables.
  abbrev pub Fresh : {A : Type 0} → V → Test V W A → Type 0
  Fresh start m = (n : ℕ) (w : W) → Owns n (start, w) → Owns n (m (start, w)).1

  module _ (start : V) where
    pub >>=-Fresh :
        {A B : Type 0} (m : Test V W A) (f : A → Test V W B)
        → Fresh start m
        → ((a : A) → Stays (f a))
        → Fresh start (m >>= f)
    >>=-Fresh m f h k n w o = continue-Stays n (m (start, w)).0 f (m (start, w)).1 (h n w o) k

    continue-Fresh :
        {A B : Type 0} (n : ℕ) (r : Result A) (f : A → Test V W B) (w : W)
        → Owns n (start, w)
        → ((a : A) → Fresh start (f a))
        → Owns n (continue r f (start, w)).1
    continue-Fresh n (ok a) f w h k = k a n w h
    continue-Fresh n (err e) f w h k = h

    pub aside-Fresh :
        {A B : Type 0} (m : Exec W A) (f : A → Test V W B)
        → Keeps live m
        → ((a : A) → Fresh start (f a))
        → Fresh start (aside m >>= f)
    aside-Fresh m f h k n w o = continue-Fresh n (m w).0 f (m w).1 (h w ∙ o) k

    -- A test whose clean-up gives back what the variables hold leaves as many as there were.
    pub run_test-live :
        (steps : Test V W Unit) (cleanup : V → Exec W Unit) (w : W)
        → live w ≡ own (live w) start
        → Fresh start steps
        → ((n : ℕ) (s : V × W) → Owns n s → live (cleanup s.0 s.1).1 ≡ n)
        → live (run_test start steps cleanup w).1 ≡ live w
    unfolding run_test
    run_test-live steps cleanup w e h k =
        let (r, s) = steps (start, w) in
        finish-live live r (cleanup s.0 s.1) ∙ k (live w) s (h (live w) w e)

    or_end-live :
        (b : Bool) (r : Status) (t : Status × W) (w : W) (n : ℕ)
        → ended_by r ≡ b
        → live t.1 ≡ n
        → (ended_by (if b then (r, w) else finish r t).0 ≡ true)
          ⊎ (live (if b then (r, w) else finish r t).1 ≡ n)
    or_end-live true r t w n e h = inl e
    or_end-live false r t w n e h = inr (finish-live live r t ∙ h)

    -- The same where the steps may end the process.
    pub run_or_end-live :
        (steps : Test V W Unit) (cleanup : V → Exec W Unit) (w : W)
        → live w ≡ own (live w) start
        → Fresh start steps
        → ((n : ℕ) (s : V × W) → Owns n s → live (cleanup s.0 s.1).1 ≡ n)
        → (ended_by (run_or_end start steps cleanup w).0 ≡ true)
          ⊎ (live (run_or_end start steps cleanup w).1 ≡ live w)
    unfolding run_or_end
    run_or_end-live steps cleanup w e h k =
        let (r, s) = steps (start, w) in
        or_end-live (ended_by r) r (cleanup s.0 s.1) s.1 (live w) refl
          (k (live w) s (h (live w) w e))
