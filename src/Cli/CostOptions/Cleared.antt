-- ===== src/Cli/CostOptions/Cleared.antt =====
-- Which options and which host `runCost` lets through, and with what.
use mathlib.Core.Path.{subst}
use obscost.Prelude.{
  String, true, false, not, ◌&&◌, List, [], ◌∷◌, ◌≡◌, ◌↔◌, ◌⊎◌, refl, sym, ◌==◌, string_comparable,
  Bool-cases, inl, inr, contains,
}
use obscost.Prelude.Int.{ℤ, pos, ltb_ℤ}
use obscost.Prelude.Result.{ok}
use obscost.Float.{Float}
use obscost.Cost.{PoolId, pool_ingester_memory}
use obscost.Cost.Validate.{validate}
use obscost.Cost.Validate.Defensible.{IsDefensible}
use obscost.Cost.Validate.Validity.{validate_iff}
use obscost.Promapi.{Selector, trim_space, parse_selector}
use obscost.Promapi.Selection.{Selects, parse_selector_lem}
use obscost.Cli.Auth.{backend_auth}
use obscost.Cli.Auth.Grants.{Grants, backend_auth_lem}
use obscost.Cli.CostOptions.{
  CostOptions, bad_format, no_url, no_metrics_tenant, dir_without_rule_outputs, no_rule_definitions,
  concurrency_below_one, no_ingester_memory, passes, Plan, Host, refuse_if, parse_since_duration,
  cost_window, check_format, select_pools, loaded_config, check_rule_outputs, valid_inventory,
  resolve_selector, credentials, check_cost,
}
use obscost.Cli.CostOptions.Passing.{
  not_iff, passes_injective, >>=-passes, passes->>=, refuse_if_iff, config_iff, inventory_iff,
  credentials_iff, selected_iff, window_from_iff,
}
use obscost.Cli.CostOptions.Pools.{Chosen, Chosen-select_pools, select_pools-Chosen}

module _ {F Ast : Type 0} ⦃f : Float F⦄ (host : Host F Ast) (opts : CostOptions) where
  -- The window that `--since` stands for: an hour without it.
  abbrev pub IsWindow : ℤ → Type 0
  IsWindow window =
      ((opts.since ≡ "") × (window ≡ pos 3600000000000))
      ⊎ (((opts.since == "") ≡ false)
          × (parse_since_duration host.atoi host.parse_duration opts.since ≡ ok window))

  -- The selector, from `--selector` where that is given, and from the configuration otherwise.
  abbrev pub IsSelected : String → Selector → String → Type 0
  IsSelected configured sel source =
      ((opts.selector ≡ "")
        × (Selects host.promql (trim_space configured) sel
            × (source ≡ "backend.selector in the config file")))
      ⊎ (((opts.selector == "") ≡ false)
          × (Selects host.promql (trim_space opts.selector) sel × (source ≡ "--selector")))

  -- Rule outputs need rule definitions, room for a query, and the pool that they are a part of.
  abbrev pub IsDrillDown : List PoolId → Type 0
  IsDrillDown pools =
      (opts.rule_outputs ≡ false)
      ⊎ ((opts.rule_outputs ≡ true)
          × (((opts.dir == "" && opts.tenants == "") ≡ false)
              × ((ltb_ℤ opts.rule_output_concurrency (pos 1) ≡ false)
                  × (contains pool_ingester_memory pools ≡ true))))

  -- What a command needs to be let through, and what it is then run with.
  pub record IsCleared (plan : Plan F) : Type 0 where
    since : IsWindow plan.window
    format : contains opts.format ("md" ∷ "" ∷ "json" ∷ []) ≡ true
    pub chosen : Chosen opts.pools plan.pools
    loaded : host.load_config ≡ ok plan.config
    url : (plan.config.url == "") ≡ false
    tenant : (opts.metrics_tenant == "") ≡ false
    directory : (not (opts.dir == "") && not opts.rule_outputs) ≡ false
    drill_down : IsDrillDown plan.pools
    defensible : IsDefensible plan.config.inventory
    selecting : IsSelected plan.config.selector plan.selector plan.selector_source
    granting : Grants host.getenv host.read_file plan.config.header plan.config.auth plan.creds

  same_text : (s : String) → s ≡ "" → (s == "") ≡ true
  same_text s h = (string_comparable.equal_iff s "").1 h

  IsWindow-iff :
      (window : ℤ)
      → (cost_window {F = F} host.atoi host.parse_duration opts.since ≡ passes window)
        ↔ IsWindow window
  IsWindow-iff window =
      let given =
        window_from_iff {F = F} opts.since
          (parse_since_duration host.atoi host.parse_duration opts.since) window in
      (
        λ h. elim (Bool-cases (opts.since == "")) [
          | inl e ↦ inl (
            (string_comparable.equal_iff opts.since "").0 e,
            sym (passes_injective (pos 3600000000000) window (rw e at h)),
          )
          | inr e ↦ inr (e, given.0 (rw e at h))
        ],
        λ w. elim w [
          | inl (e, k) ↦ rw (same_text opts.since e, k) refl
          | inr (e, k) ↦ rw e (given.1 k)
        ],
      )

  IsSelected-iff :
      (configured : String) (sel : Selector) (source : String)
      → (resolve_selector host configured opts.selector ≡ passes (sel, source))
        ↔ IsSelected configured sel source
  IsSelected-iff configured sel source =
      let parsed = λ (text : String). parse_selector_lem host.promql text sel in
      let by = λ (text from : String).
        selected_iff {F = F} (parse_selector host.promql text) from source sel in
      (
        λ h. elim (Bool-cases (opts.selector == "")) [
          | inl e ↦
              let (k, k') = (by configured "backend.selector in the config file").0 (rw e at h) in
              inl
                ((string_comparable.equal_iff opts.selector "").0 e, ((parsed configured).0 k, k'))
          | inr e ↦
              let (k, k') = (by opts.selector "--selector").0 (rw e at h) in
              inr (e, ((parsed opts.selector).0 k, k'))
        ],
        λ w. elim w [
          | inl (e, (k, k')) ↦ rw (same_text opts.selector e) (
              (by configured "backend.selector in the config file").1 ((parsed configured).1 k, k'))
          | inr (e, (k, k')) ↦
              rw e ((by opts.selector "--selector").1 ((parsed opts.selector).1 k, k'))
        ],
      )

  IsDrillDown-iff :
      (pools : List PoolId)
      → (check_rule_outputs {F = F} opts pools ≡ passes tt) ↔ IsDrillDown pools
  IsDrillDown-iff pools =
      let defs = refuse_if_iff {F = F} (opts.dir == "" && opts.tenants == "") no_rule_definitions in
      let room =
        refuse_if_iff {F = F} (ltb_ℤ opts.rule_output_concurrency (pos 1))
          (concurrency_below_one opts.rule_output_concurrency) in
      let part =
        refuse_if_iff {F = F} (not (contains pool_ingester_memory pools)) no_ingester_memory in
      let has = not_iff (contains pool_ingester_memory pools) in
      (
        λ h. elim (Bool-cases opts.rule_outputs) [
          | inr e ↦ inl e
          | inl e ↦
              let (u, d, h1) =
                >>=-passes (refuse_if (opts.dir == "" && opts.tenants == "") no_rule_definitions) _
                  tt (rw e at h) in
              let (v, r, h2) =
                >>=-passes
                  (refuse_if (ltb_ℤ opts.rule_output_concurrency (pos 1))
                    (concurrency_below_one opts.rule_output_concurrency))
                  _ tt h1 in
              inr (e, ((defs u).0 d, ((room v).0 r, has.0 ((part tt).0 h2))))
        ],
        λ w. elim w [ inl e ↦ rw e refl | inr (e, (d, (r, p))) ↦ rw (e, d, r, p) refl ],
      )

  IsCleared-sound : (plan : Plan F) → check_cost host opts ≡ passes plan → IsCleared plan
  unfolding check_cost
  IsCleared-sound plan h =
      let (window, w, h1) =
        >>=-passes (cost_window host.atoi host.parse_duration opts.since) _ plan h in
      let (u2, form, h2) = >>=-passes (check_format host opts.format) _ plan h1 in
      let (pools, p, h3) = >>=-passes (select_pools opts.pools) _ plan h2 in
      let (cfg, c, h4) = >>=-passes (loaded_config host.load_config) _ plan h3 in
      let (u5, url, h5) = >>=-passes (refuse_if (cfg.url == "") no_url) _ plan h4 in
      let (u6, tenant, h6) =
        >>=-passes (refuse_if (opts.metrics_tenant == "") no_metrics_tenant) _ plan h5 in
      let (u7, dir, h7) =
        >>=-passes
          (refuse_if (not (opts.dir == "") && not opts.rule_outputs) dir_without_rule_outputs) _
          plan h6 in
      let (u8, ro, h8) = >>=-passes (check_rule_outputs opts pools) _ plan h7 in
      let (u9, inv, h9) = >>=-passes (valid_inventory (validate cfg.inventory)) _ plan h8 in
      let ((sel, source), s, h10) =
        >>=-passes (resolve_selector host cfg.selector opts.selector) _ plan h9 in
      let (creds, cr, h11) =
        >>=-passes (credentials (backend_auth host.getenv host.read_file cfg.header cfg.auth)) _
          plan h10 in
      subst IsCleared (passes_injective _ plan h11) (record {
        since = (IsWindow-iff window).0 w;
        format = (not_iff _).0 ((refuse_if_iff _ (bad_format opts.format) u2).0 form);
        chosen = Chosen-select_pools opts.pools pools p;
        loaded = (config_iff host.load_config cfg).0 c;
        url = (refuse_if_iff (cfg.url == "") no_url u5).0 url;
        tenant = (refuse_if_iff (opts.metrics_tenant == "") no_metrics_tenant u6).0 tenant;
        directory = (refuse_if_iff _ dir_without_rule_outputs u7).0 dir;
        drill_down = (IsDrillDown-iff pools).0 ro;
        defensible =
            (validate_iff cfg.inventory).0 ((inventory_iff (validate cfg.inventory) u9).0 inv);
        selecting = (IsSelected-iff cfg.selector sel source).0 s;
        granting =
            (backend_auth_lem host.getenv host.read_file cfg.header cfg.auth creds).0
              ((credentials_iff _ creds).0 cr);
      })

  IsCleared-complete : (plan : Plan F) → IsCleared plan → check_cost host opts ≡ passes plan
  unfolding check_cost
  IsCleared-complete plan v =
      let cfg = plan.config in
      passes->>= (cost_window host.atoi host.parse_duration opts.since) _ plan.window plan
        ((IsWindow-iff plan.window).1 v.since)
        (passes->>= (check_format host opts.format) _ tt plan
          ((refuse_if_iff _ (bad_format opts.format) tt).1 ((not_iff _).1 v.format))
          (passes->>= (select_pools opts.pools) _ plan.pools plan
            (select_pools-Chosen opts.pools plan.pools v.chosen)
            (passes->>= (loaded_config host.load_config) _ cfg plan
              ((config_iff host.load_config cfg).1 v.loaded)
              (passes->>= (refuse_if (cfg.url == "") no_url) _ tt plan
                ((refuse_if_iff (cfg.url == "") no_url tt).1 v.url)
                (passes->>= (refuse_if (opts.metrics_tenant == "") no_metrics_tenant) _ tt plan
                  ((refuse_if_iff (opts.metrics_tenant == "") no_metrics_tenant tt).1 v.tenant)
                  (passes->>=
                    (refuse_if (not (opts.dir == "") && not opts.rule_outputs)
                      dir_without_rule_outputs)
                    _ tt plan ((refuse_if_iff _ dir_without_rule_outputs tt).1 v.directory)
                    (passes->>= (check_rule_outputs opts plan.pools) _ tt plan
                      ((IsDrillDown-iff plan.pools).1 v.drill_down)
                      (passes->>= (valid_inventory (validate cfg.inventory)) _ tt plan
                        ((inventory_iff (validate cfg.inventory) tt).1
                          ((validate_iff cfg.inventory).1 v.defensible))
                        (passes->>= (resolve_selector host cfg.selector opts.selector) _
                          (plan.selector, plan.selector_source) plan
                          ((IsSelected-iff cfg.selector plan.selector plan.selector_source).1
                            v.selecting)
                          (passes->>=
                            (credentials
                              (backend_auth host.getenv host.read_file cfg.header cfg.auth))
                            _ plan.creds plan
                            ((credentials_iff _ plan.creds).1 (
                              (backend_auth_lem host.getenv host.read_file cfg.header cfg.auth
                                  plan.creds).1
                                v.granting))
                            refl))))))))))

  pub check_cost_lem : (plan : Plan F) → (check_cost host opts ≡ passes plan) ↔ IsCleared plan
  check_cost_lem plan = (IsCleared-sound plan, IsCleared-complete plan)
