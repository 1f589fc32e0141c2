-- ===== src/Tools/Owned.antt =====
-- block-ts/lib/tool: the operations that make a benchmark as steps of a counter of jobs: how each step
-- and a chain of steps changes it.
use cns_virtblk_ts.Base.{
  ℕ, ◌+◌, ◌≡◌, refl, ap, ◌∙◌, subst, Bool, true, false, Option, none, some, if◌then◌else◌,
}
use cns_virtblk_ts.Base.Text.{Bytes}
use cns_virtblk_ts.Base.Exec.{Result, ok, err, Status, Exec, continue, pure, ◌>>=◌}
use cns_virtblk_ts.Te.{TeLib}
use cns_virtblk_ts.Backend.{CfgLib}
use cns_virtblk_ts.Ceph.Jobs.{JobLib}
use cns_virtblk_ts.Ceph.Live.{succeeded}
use cns_virtblk_ts.Tools.{App, ToolLib, app_allocated}
use cns_virtblk_ts.Tools.Create.{Make, aside, write_app, write_filter, agent, formatted}

module _ {W : Type 0} (te : TeLib W) (cfg : CfgLib W) (jobs : JobLib W) (lib : ToolLib W)
    (live : W → ℕ) where
  -- An operation that leaves as many jobs as there were.
  abbrev pub Keeps : {A : Type 0} → Exec W A → Type 0
  Keeps m = (w : W) → live (m w).1 ≡ live w

  -- An operation that adds one job where it succeeds, and none otherwise.
  abbrev pub Makes : {A : Type 0} → Exec W A → Type 0
  Makes m = (w : W) → live (m w).1 ≡ (if succeeded (m w).0 then live w + 1 else live w)

  abbrev pub with_own : ℕ → Option App → ℕ
  with_own n (some app) = n + 1
  with_own n none = n

  -- With an application there are `n` jobs and its own.
  abbrev pub Owns : ℕ → Option App × W → Type 0
  Owns n (app, w) = live w ≡ with_own n app

  abbrev pub Stays : {A : Type 0} → Make te cfg jobs lib A → Type 0
  Stays m = (n : ℕ) (s : Option App × W) → Owns n s → Owns n (m s).1

  -- From no application, an operation ends with an application that owns its job, or with none.
  abbrev pub Fresh : {A : Type 0} → Make te cfg jobs lib A → Type 0
  Fresh m = (w : W) → Owns (live w) (m (none, w)).1

  pub continue-Keeps :
      {A B : Type 0} (r : Result A) (f : A → Exec W B) (w : W)
      → ((a : A) → Keeps (f a))
      → live (continue r f w).1 ≡ live w
  continue-Keeps (ok a) f w k = k a w
  continue-Keeps (err e) f w k = refl

  pub continue-Makes :
      {A B : Type 0} (n : ℕ) (r : Result A) (f : A → Exec W B) (w : W)
      → live w ≡ n
      → ((a : A) → Makes (f a))
      → live (continue r f w).1 ≡ (if succeeded (continue r f w).0 then n + 1 else n)
  continue-Makes n (ok a) f w h k = k a w ∙ ap (λ m. if succeeded (f a w).0 then m + 1 else m) h
  continue-Makes n (err e) f w h k = h

  pub continue-pure :
      {A B : Type 0} (n : ℕ) (r : Result A) (f : A → B) (w : W)
      → live w ≡ (if succeeded r then n + 1 else n)
      → live (continue r (λ a. pure (f a)) w).1
        ≡ (if succeeded (continue r (λ a. pure {W = W} (f a)) w).0 then n + 1 else n)
  continue-pure n (ok a) f w h = h
  continue-pure n (err e) f w h = h

  pub app_allocated-live : (r : Bool × W) → live (app_allocated jobs lib r).1 ≡ live r.1
  app_allocated-live (true, w) = refl
  app_allocated-live (false, w) = refl

  pub aside-Stays : {A : Type 0} (m : Exec W A) → Keeps m → Stays (aside te cfg jobs lib m)
  aside-Stays m k n (app, w) h = k w ∙ h

  pub continue-Stays :
      {A B : Type 0} (n : ℕ) (r : Result A) (f : A → Make te cfg jobs lib B) (s : Option App × W)
      → Owns n s
      → ((a : A) → Stays (f a))
      → Owns n (continue r f s).1
  continue-Stays n (ok a) f s h k = k a n s h
  continue-Stays n (err e) f s h k = h

  pub >>=-Stays :
      {A B : Type 0} (m : Make te cfg jobs lib A) (f : A → Make te cfg jobs lib B)
      → Stays m
      → ((a : A) → Stays (f a))
      → Stays (m >>= f)
  >>=-Stays m f h k n s o = continue-Stays n (m s).0 f (m s).1 (h n s o) k

  pub >>=-Fresh :
      {A B : Type 0} (m : Make te cfg jobs lib A) (f : A → Make te cfg jobs lib B)
      → Fresh m
      → ((a : A) → Stays (f a))
      → Fresh (m >>= f)
  >>=-Fresh m f h k w = continue-Stays (live w) (m (none, w)).0 f (m (none, w)).1 (h w) k

  pub continue-Fresh :
      {A B : Type 0} (n : ℕ) (r : Result A) (f : A → Make te cfg jobs lib B) (w : W)
      → live w ≡ n
      → ((a : A) → Fresh (f a))
      → Owns n (continue r f (none, w)).1
  continue-Fresh n (ok a) f w h k = subst (λ m. Owns m (f a (none, w)).1) h (k a w)
  continue-Fresh n (err e) f w h k = h

  pub aside-Fresh :
      {A B : Type 0} (m : Exec W A) (f : A → Make te cfg jobs lib B)
      → Keeps m
      → ((a : A) → Fresh (f a))
      → Fresh (aside te cfg jobs lib m >>= f)
  aside-Fresh m f h k w = continue-Fresh (live w) (m w).0 f (m w).1 (h w) k

  pub agent-Fresh :
      {B : Type 0} (a : Option Bytes) (f : Bytes → Make te cfg jobs lib B)
      → ((ta : Bytes) → Fresh (f ta))
      → Fresh (agent te cfg jobs lib a >>= f)
  agent-Fresh none f k w = refl
  agent-Fresh (some ta) f k w = k ta w

  pub written :
      (n : ℕ) (r : Result App) (w : W)
      → live w ≡ (if succeeded r then n + 1 else n)
      → Owns n (continue r (λ app. write_app te cfg jobs lib app >>= λ _. pure app) (none, w)).1
  written n (ok app) w h = h
  written n (err e) w h = h

  pub write_filter-Stays : (filter : ℕ) → Stays (write_filter te cfg jobs lib filter)
  write_filter-Stays filter n (some app, w) h = h
  write_filter-Stays filter n (none, w) h = h

  pub formatted-live : (r : Status × Bytes × W) → live (formatted te cfg jobs lib r).1 ≡ live r.2
  formatted-live (ok u, s, w) = refl
  formatted-live (err e, s, w) = refl
