-- ===== src/Ceph/Options.antt =====
-- Which options the configuration file of a Ceph cluster has.
use cns_virtblk_ts.Base.{
  ℕ, ◌≡◌, refl, ap, ◌∙◌, Bool, true, false, some, List, [], ◌∷◌, ◌++◌, append-nil, append_assoc,
  if◌then◌else◌,
}
use cns_virtblk_ts.Base.Text.{Bytes, codes, strcmp}
use cns_virtblk_ts.Base.Exec.{ok, Exec, pure, ◌>>=◌}
use cns_virtblk_ts.Te.{TeLib, IsDocumented, IsPlentiful}
use cns_virtblk_ts.Conf.{
  Kv, Conf, tsapi_conf_section_get, push_item, tsapi_conf_create_section, tsapi_conf_append,
}
use cns_virtblk_ts.Conf.Sections.{append_outcome}
use cns_virtblk_ts.Conf.Write.{tsapi_conf_flush}
use cns_virtblk_ts.Backend.{CfgLib, tsapi_get_backend_param_bool}
use cns_virtblk_ts.Backend.Devices.{append_result_lem}
use cns_virtblk_ts.Ceph.Cluster.{
  ceph_conf, base_options, onload_options, plugin_options, log_options, log_path, is_yes,
  tsapi_use_onload, tsapi_use_plugin, made_string, global_section, append_options, add_plugin,
  add_onload, add_log, net_text, mon_text, block_ts_ceph_cluster_conf_create,
}

abbrev pub when : Bool → List Kv → List Kv
when b kvs = if b then kvs else []

-- The only section of the file.
abbrev pub global : List Kv → Conf
global kvs = record { name = codes "global"; delimiter = b'=' ∷ []; items = kvs } ∷ []

module _ {W : Type 0} (te : TeLib W) (cfg : CfgLib W) (doc : IsDocumented te)
    (p : IsPlentiful te) where
  -- A call that succeeds with a value.
  abbrev Gives : {A : Type 0} → Exec W A → A → Type 0
  Gives m a = (w : W) → (w' : W) × (m w ≡ (ok a, w'))

  gives : {A : Type 0} (m : Exec W A) (a : A) → ((w : W) → (m w).0 ≡ ok a) → Gives m a
  gives m a h w = ((m w).1, ap (λ r. (r, (m w).1)) (h w))

  >>=-Gives :
      {A B : Type 0} (m : Exec W A) (f : A → Exec W B) (a : A) (b : B)
      → Gives m a
      → Gives (f a) b
      → Gives (m >>= f) b
  >>=-Gives m f a b h k w = let (w1, e1) = h w in let (w2, e2) = k w1 in (w2, rw e1 e2)

  append-Gives :
      (kvs : List Kv) (kv : Kv)
      → Gives
          (tsapi_conf_append te (some (global kvs)) (codes "global") kv.key kv.value)
          (global (kvs ++ kv ∷ []))
  append-Gives kvs kv =
      gives (tsapi_conf_append te (some (global kvs)) (codes "global") kv.key kv.value)
        (global (kvs ++ kv ∷ []))
        (λ w.
          append_outcome te p (global kvs) (codes "global") kv.key kv.value w
          ∙ unfold push_item tsapi_conf_section_get strcmp in refl)

  append_options-Gives :
      (kvs more : List Kv) → Gives (append_options te cfg more (global kvs)) (global (kvs ++ more))
  unfolding append_options
  append_options-Gives kvs [] = λ w. (w, rw (append-nil kvs) refl)
  append_options-Gives kvs (kv ∷ more) =
      >>=-Gives (tsapi_conf_append te (some (global kvs)) (codes "global") kv.key kv.value)
        (append_options te cfg more) (global (kvs ++ kv ∷ [])) (global (kvs ++ kv ∷ more))
        (append-Gives kvs kv)
        (rw (← append_assoc kvs (kv ∷ []) more) (append_options-Gives (kvs ++ kv ∷ []) more))

  made_string-Gives : (t : Bytes) → Gives (made_string te cfg t) t
  made_string-Gives t w =
      let room = p.appends [] t w in
      (
        (te.te_string_append [] t w).2,
        append_result_lem (te.te_string_append [] t w) t room (doc.append_ok [] t w room),
      )

  global_section-Gives : Gives (global_section te cfg) (global [])
  unfolding tsapi_conf_create_section
  global_section-Gives w = ((te.te_vec_append w).1, rw (p.grows w) refl)

  module _ (onload plugin logging : Bytes)
      (gives_onload : Gives (cfg.cfg_get_instance_fmt (codes "/local:/use_onload:")) onload)
      (gives_plugin : Gives (cfg.cfg_get_instance_fmt (codes "/local:/plugin:/use_plugin:")) plugin)
      (gives_logging : Gives
        (tsapi_get_backend_param_bool cfg (codes "ceph") (codes "enable_logging"))
        (is_yes logging)) where
    -- The options of the file, in their order.
    abbrev pub options : Bytes → Bytes → List Kv
    options net mon =
        ((base_options net mon
            ++ when (is_yes onload) (onload_options ++ when (is_yes plugin) plugin_options))
          ++ when (is_yes logging) log_options)

    add_plugin-Gives :
        (b : Bool) (kvs : List Kv)
        → Gives (add_plugin te cfg b (global kvs)) (global (kvs ++ when b plugin_options))
    add_plugin-Gives true kvs = append_options-Gives kvs plugin_options
    add_plugin-Gives false kvs = λ w. (w, rw (append-nil kvs) refl)

    use_onload-Gives : Gives (tsapi_use_onload te cfg) (is_yes onload)
    unfolding tsapi_use_onload
    use_onload-Gives =
        >>=-Gives (cfg.cfg_get_instance_fmt (codes "/local:/use_onload:"))
          (λ val. pure (is_yes val)) onload (is_yes onload) gives_onload (λ w. (w, refl))

    use_plugin-Gives : Gives (tsapi_use_plugin te cfg) (is_yes plugin)
    unfolding tsapi_use_plugin
    use_plugin-Gives =
        >>=-Gives (cfg.cfg_get_instance_fmt (codes "/local:/plugin:/use_plugin:"))
          (λ val. pure (is_yes val)) plugin (is_yes plugin) gives_plugin (λ w. (w, refl))

    add_onload-Gives :
        (b : Bool) (kvs : List Kv)
        → Gives
            (add_onload te cfg b (global kvs))
            (global (kvs ++ when b (onload_options ++ when (is_yes plugin) plugin_options)))
    add_onload-Gives true kvs =
        >>=-Gives (append_options te cfg onload_options (global kvs)) _
          (global (kvs ++ onload_options)) _ (append_options-Gives kvs onload_options)
          (>>=-Gives (tsapi_use_plugin te cfg)
            (λ b. add_plugin te cfg b (global (kvs ++ onload_options))) (is_yes plugin) _
            use_plugin-Gives
            (rw (← append_assoc kvs onload_options (when (is_yes plugin) plugin_options))
              (add_plugin-Gives (is_yes plugin) (kvs ++ onload_options))))
    add_onload-Gives false kvs = λ w. (w, rw (append-nil kvs) refl)

    add_log-Gives :
        (b : Bool) (kvs : List Kv)
        → Gives (add_log te cfg b (global kvs)) (global (kvs ++ when b log_options))
    add_log-Gives true kvs =
        >>=-Gives (made_string te cfg log_path) _ log_path _ (made_string-Gives log_path)
          (append_options-Gives kvs log_options)
    add_log-Gives false kvs = λ w. (w, rw (append-nil kvs) refl)

    -- Where the library works as documented, no request for memory fails and the Configurator
    -- gives the three settings, the configuration that is flushed has one section, with the
    -- options in their order: those of Onload when it is used, that of the plugin when both are
    -- used, and those of the log when logging is on.
    pub conf_create-options :
        (net_ip mon_ip : Bytes) (pfx : ℕ) (w : W)
        → (w' : W) × (block_ts_ceph_cluster_conf_create te cfg net_ip mon_ip pfx w
            ≡ tsapi_conf_flush te
                (global (options (net_text te cfg net_ip pfx) (mon_text te cfg mon_ip)))
                ceph_conf
                w')
    unfolding block_ts_ceph_cluster_conf_create
    conf_create-options net_ip mon_ip pfx w =
        let net = net_text te cfg net_ip pfx in
        let mon = mon_text te cfg mon_ip in
        let base = base_options net mon in
        let more =
          base ++ when (is_yes onload) (onload_options ++ when (is_yes plugin) plugin_options) in
        let (w1, e1) = made_string-Gives net w in
        let (w2, e2) = made_string-Gives mon w1 in
        let (w3, e3) = global_section-Gives w2 in
        let (w4, e4) = append_options-Gives [] base w3 in
        let (w5, e5) = use_onload-Gives w4 in
        let (w6, e6) = add_onload-Gives (is_yes onload) base w5 in
        let (w7, e7) = gives_logging w6 in
        let (w8, e8) = add_log-Gives (is_yes logging) more w7 in
        (w8, rw (e1, e2, e3, e4, e5, e6, e7, e8) refl)
