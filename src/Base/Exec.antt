-- ===== src/Base/Exec.antt =====
-- Code that returns a `te_errno` and changes a state: what was written before an error stays
-- written, so the state comes back beside the error too.
use mathlib.Core.Path.{◌≡◌, refl}
use mathlib.Core.Logic.{◌⊎◌, inl, inr}
use Prim.Native.Nat.{ℕ}
use mathlib.Core.Bool.{Bool, true, false}

-- The error codes that the sources name; `other` is any other code of a callee. With `ended` there is no
-- code: the process of the test has ended, for it read through a NULL pointer.
pub data Errno : Type 0 where
  einval efail enomem enoent esrch enobufs eshcmd eproto einprogress esmallbuf ended : Errno
  other : ℕ → Errno

-- `ok tt : Result Unit` is the status 0.
pub data Result {ℓ} (A : Type ℓ) : Type ℓ where
  ok : A → Result A
  err : Errno → Result A

pub Result-cases {ℓ} :
    {A : Type ℓ} (r : Result A) → ((a : A) × (r ≡ ok a)) ⊎ ((e : Errno) × (r ≡ err e))
Result-cases (ok a) = inl (a, refl)
Result-cases (err e) = inr (e, refl)

abbrev pub Status : Type 0
Status = Result (Unit {0})

abbrev pub Exec : Type 0 → Type 0 → Type 0
Exec W A = W → Result A × W

abbrev pub ended_by : Status → Bool
ended_by (err ended) = true
ended_by _ = false

module _ {W A : Type 0} where
  abbrev pub pure : A → Exec W A
  pure a w = (ok a, w)

  abbrev pub raise : Errno → Exec W A
  raise e w = (err e, w)

  abbrev pub lift : Result A → Exec W A
  lift r w = (r, w)

module _ {W A B : Type 0} where
  abbrev pub continue : Result A → (A → Exec W B) → Exec W B
  continue (ok a) f w = f a w
  continue (err e) f w = (err e, w)

  infixl 5 ◌>>=◌ ◌>>◌
  abbrev pub ◌>>=◌ : Exec W A → (A → Exec W B) → Exec W B
  ◌>>=◌ m f w = let (r, w') = m w in continue r f w'

  abbrev pub ◌>>◌ : Exec W A → Exec W B → Exec W B
  m >> n = m >>= λ _. n

module _ {W A B : Type 0} where
  continue-ok :
      (r : Result A) (f : A → Exec W B) (w : W) (b : B)
      → (continue r f w).0 ≡ ok b
      → (a : A) × (r ≡ ok a) × ((f a w).0 ≡ ok b)
  continue-ok (ok a) f w b h = (a, refl, h)
  continue-ok (err e) f w b h = cc

  -- Where a chain succeeds, both parts do.
  pub >>=-ok :
      (m : Exec W A) (f : A → Exec W B) (w : W) (b : B)
      → ((m >>= f) w).0 ≡ ok b
      → (a : A) × ((m w).0 ≡ ok a) × ((f a (m w).1).0 ≡ ok b)
  >>=-ok m f w b h = continue-ok (m w).0 f (m w).1 b h

  continue-step :
      (r : Result A) (f : A → Exec W B) (w : W) (b : B)
      → (continue r f w).0 ≡ ok b
      → (a : A) × (r ≡ ok a) × ((f a w).0 ≡ ok b) × (continue r f w ≡ f a w)
  continue-step (ok a) f w b h = (a, refl, h, refl)
  continue-step (err e) f w b h = cc

  -- A chain that succeeds goes on from where its first part succeeds.
  pub >>=-step :
      (m : Exec W A) (f : A → Exec W B) (w : W) (b : B)
      → ((m >>= f) w).0 ≡ ok b
      → (a : A) × ((m w).0 ≡ ok a) × ((f a (m w).1).0 ≡ ok b) × ((m >>= f) w ≡ f a (m w).1)
  >>=-step m f w b h = continue-step (m w).0 f (m w).1 b h

  continue-run :
      (r : Result A) (f : A → Exec W B) (w : W) (b : B)
      → (continue r f w).0 ≡ ok b
      → (a : A) × (◌≡◌ {A = Result A × W} (r, w) (ok a, w))
        × ((f a w).0 ≡ ok b)
        × (continue r f w ≡ f a w)
  continue-run (ok a) f w b h = (a, refl, h, refl)
  continue-run (err e) f w b h = cc

  -- The same with the state in between as a whole.
  pub >>=-run :
      (m : Exec W A) (f : A → Exec W B) (w : W) (b : B)
      → ((m >>= f) w).0 ≡ ok b
      → (a : A) × (w' : W) × (m w ≡ (ok a, w')) × ((f a w').0 ≡ ok b) × ((m >>= f) w ≡ f a w')
  >>=-run m f w b h = let (a, e, k, s) = continue-run (m w).0 f (m w).1 b h in (a, (m w).1, e, k, s)

  continue-from :
      (r : Result A) (f : A → Exec W B) (w : W) (a : A) → r ≡ ok a → continue r f w ≡ f a w
  continue-from r f w a h = rw h refl

  -- A chain whose first part succeeds.
  pub >>=-from :
      (m : Exec W A) (f : A → Exec W B) (w : W) (a : A) → (m w).0 ≡ ok a → (m >>= f) w ≡ f a (m w).1
  >>=-from m f w a h = continue-from (m w).0 f (m w).1 a h
