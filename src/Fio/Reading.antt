-- ===== src/Fio/Reading.antt =====
-- block-ts/lib/tsapi-fio.c: where the options that are read come from.
use cns_virtblk_ts.Base.{
  ◌≡◌, refl, subst, ◌⊎◌, inl, inr, Bool, true, false, Option, some, if◌then◌else◌,
}
use cns_virtblk_ts.Base.Text.{Bytes, codes}
use cns_virtblk_ts.Base.Exec.{Result, ok, err, Exec, pure, lift, ◌>>=◌, >>=-run}
use cns_virtblk_ts.Fio.Options.{
  FioOpts, ParamLib, fio_suffix, some_text, optional, tsapi_fio_opts_read_suf,
}

ok-eq : (a b : FioOpts) → ◌≡◌ {A = Result FioOpts} (ok a) (ok b) → a ≡ b
ok-eq a b h = cc

module _ (params : ParamLib) where
  open params use {
    test_find_param, test_get_uint_param, test_get_int_param, test_get_string_param,
    test_get_fio_numjobs_param, get_ioengine_param, get_rwtype_param,
  }

  -- An option that need not be given: whether there is a parameter of its name, without the suffix,
  -- decides, and its value is that of the parameter with the suffix, which then is there.
  abbrev pub FromOptional : Bytes → Bytes → Option Bytes → Option Bytes → Type 0
  FromOptional name suffix old new =
      ((test_find_param name ≡ true)
        × (s : Bytes) × (test_get_string_param (fio_suffix name suffix) ≡ ok s)
        × (new ≡ some s))
      ⊎ ((test_find_param name ≡ false) × (new ≡ old))

  -- Where each option comes from.
  pub record IsFilled (opts : FioOpts) (suffix : Bytes) (o : FioOpts) : Type 0 where
    pub filename : o.filename ≡ opts.filename
    pub direct : o.direct ≡ true
    pub rand_gen : o.rand_gen ≡ some (codes "tausworthe64")
    pub blocksize : test_get_uint_param (fio_suffix (codes "blocksize") suffix) ≡ ok o.blocksize
    pub ioengine : get_ioengine_param (fio_suffix (codes "ioengine") suffix) ≡ ok o.ioengine
    pub rwtype : get_rwtype_param (fio_suffix (codes "rwtype") suffix) ≡ ok o.rwtype
    pub runtime_sec :
        test_get_int_param (fio_suffix (codes "runtime_sec") suffix) ≡ ok o.runtime_sec
    pub iodepth : test_get_uint_param (fio_suffix (codes "iodepth") suffix) ≡ ok o.iodepth
    pub numjobs : test_get_fio_numjobs_param (fio_suffix (codes "numjobs") suffix) ≡ ok o.numjobs
    pub rwmixread : test_get_uint_param (fio_suffix (codes "rwmixread") suffix) ≡ ok o.rwmixread
    pub name : FromOptional (codes "name") suffix opts.name o.name
    pub user : FromOptional (codes "user") suffix opts.user o.user
    pub rbdname : FromOptional (codes "rbdname") suffix opts.rbdname o.rbdname
    pub pool : FromOptional (codes "pool") suffix opts.pool o.pool
    pub size : FromOptional (codes "size") suffix opts.size o.size

  module _ {W : Type 0} where
    text-ok :
        (r : Result Bytes) (w w' : W) (x : Option Bytes)
        → some_text params (lift r) w ≡ (ok x, w')
        → (s : Bytes) × (r ≡ ok s) × (x ≡ some s)
    text-ok (ok s) w w' x h = (s, refl, cc)
    text-ok (err e) w w' x h = cc

    optional-ok :
        (name suffix : Bytes) (old x : Option Bytes) (w w' : W)
        → optional params name suffix old w ≡ (ok x, w')
        → FromOptional name suffix old x
    unfolding optional
    optional-ok name suffix old x w w' h = by_test (test_find_param name) refl h
      where
        text : Exec W (Option Bytes)
        text = some_text params (lift (test_get_string_param (fio_suffix name suffix)))

        by_test :
            (b : Bool)
            → test_find_param name ≡ b
            → (if b then text else pure old) w ≡ (ok x, w')
            → FromOptional name suffix old x
        by_test true e k =
            let (t, a, b) = text-ok (test_get_string_param (fio_suffix name suffix)) w w' x k in
            inl (e, t, a, b)
        by_test false e k = inr (e, cc)

    -- What holds of the options that are read.
    abbrev Ensures : (FioOpts → Type 0) → Exec W FioOpts → Type 0
    Ensures P m = (w : W) (o : FioOpts) → (m w).0 ≡ ok o → P o

    lift-then :
        {A : Type 0} (P : FioOpts → Type 0) (r : Result A) (f : A → Exec W FioOpts)
        → ((a : A) → r ≡ ok a → Ensures P (f a))
        → Ensures P (lift r >>= f)
    lift-then P (ok a) f k w o h = k a refl w o h
    lift-then P (err e) f k w o h = cc

    optional-then :
        (P : FioOpts → Type 0) (name suffix : Bytes) (old : Option Bytes)
        (f : Option Bytes → Exec W FioOpts)
        → ((x : Option Bytes) → FromOptional name suffix old x → Ensures P (f x))
        → Ensures P (optional params name suffix old >>= f)
    optional-then P name suffix old f k w o h =
        let (x, w1, e, h1, s) = >>=-run (optional params name suffix old) f w o h in
        k x (optional-ok name suffix old x w w1 e) w1 o h1

    -- When the options are read with a suffix, each number is that of the parameter with the suffix; a
    -- text is left as it was if there is no parameter of its name without the suffix, and otherwise is
    -- that of the parameter with the suffix, without which nothing is read.
    pub read_suf-IsFilled :
        (opts o : FioOpts) (suffix : Bytes) (w : W)
        → (tsapi_fio_opts_read_suf params opts suffix w).0 ≡ ok o
        → IsFilled opts suffix o
    unfolding tsapi_fio_opts_read_suf
    read_suf-IsFilled opts o suffix w =
        let P = IsFilled opts suffix in
        let p = λ (s : Bytes). fio_suffix s suffix in
        lift-then P (test_get_uint_param (p (codes "blocksize"))) _
          (λ a1 e1. lift-then P (get_ioengine_param (p (codes "ioengine"))) _ (λ a2 e2.
            lift-then P (get_rwtype_param (p (codes "rwtype"))) _ (λ a3 e3.
              lift-then P (test_get_int_param (p (codes "runtime_sec"))) _ (λ a4 e4.
                lift-then P (test_get_uint_param (p (codes "iodepth"))) _ (λ a5 e5.
                  lift-then P (test_get_fio_numjobs_param (p (codes "numjobs"))) _ (λ a6 e6.
                    lift-then P (test_get_uint_param (p (codes "rwmixread"))) _ (λ a7 e7.
                      optional-then P (codes "name") suffix opts.name _ (λ b1 f1.
                        optional-then P (codes "user") suffix opts.user _ (λ b2 f2.
                          optional-then P (codes "rbdname") suffix opts.rbdname _ (λ b3 f3.
                            optional-then P (codes "pool") suffix opts.pool _ (λ b4 f4.
                              optional-then P (codes "size") suffix opts.size _ (λ b5 f5 w' o' h.
                                subst P (ok-eq _ o' h) (record {
                                  filename = refl;
                                  direct = refl;
                                  rand_gen = refl;
                                  blocksize = e1;
                                  ioengine = e2;
                                  rwtype = e3;
                                  runtime_sec = e4;
                                  iodepth = e5;
                                  numjobs = e6;
                                  rwmixread = e7;
                                  name = f1;
                                  user = f2;
                                  rbdname = f3;
                                  pool = f4;
                                  size = f5;
                                })))))))))))))
          w o
