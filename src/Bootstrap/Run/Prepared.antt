-- ===== src/Bootstrap/Run/Prepared.antt =====
-- What `runControlPlane` of bootstrap.go has made sure of before it starts a service.
use hermi_nas.Prelude.{
  refl, sym, ◌∙◌, ap, Bool-cases, Option-cases, arith, inl, inr, Bool, List, String, [],
  if◌then◌else◌, none, some, true, ◌∷◌, ◌≡◌,
}
use hermi_nas.Bootstrap.Run.{
  clickhouse_config, on_linux, prepare, redpanda_config, register, add_clickhouse, add_services,
  found_binary, configured_redpanda,
}
use hermi_nas.Kernel.Errors.{Bytes, ok}
use hermi_nas.Kernel.Permissions.{all}
use hermi_nas.Services.{Laws, checked-done, joined_differ, Host, Platform}
use hermi_nas.Supervisor.Lifecycle.{done, Registration}
use hermi_nas.Kernel.Settings.{Layout}
use hermi_nas.Services.ClickHouse
use hermi_nas.Services.Redpanda
use hermi_nas.Services.ClickHouse.Configured.{IsConfigured, generate_config-IsConfigured}
use hermi_nas.Supervisor.Lifecycle
use hermi_nas.Supervisor.Lifecycle.Order.{names}

module _ {F S : Type 0} (H : Host S) (L : Laws H) (is_zero : F → Bool) (two zero_value : F)
    (quote : String → Bytes) (p : Platform) (layout : Layout) where
  abbrev yaml_path : String
  yaml_path = Redpanda.config_path H (redpanda_config H layout)

  abbrev yaml : Bytes
  yaml = Redpanda.yaml_text quote (redpanda_config H layout)

  -- The services in the order in which they are to be started, their configuration on disk, and a
  -- file at the path of the binary of ClickHouse.
  pub record IsPrepared (regs : List (Registration F)) (s : S) : Type 0 where
    pub services :
        names regs ≡ (if on_linux p then "redpanda" ∷ "clickhouse" ∷ [] else "clickhouse" ∷ [])
    pub redpanda : on_linux p ≡ true → L.contents yaml_path s ≡ some yaml
    pub clickhouse : IsConfigured H L (clickhouse_config H layout) s
    pub binary : H.stat (ClickHouse.binary_path H (clickhouse_config H layout)) s ≡ true

  add_clickhouse_lem :
      (regs : List (Registration F)) (s : S) {all : List (Registration F)}
      → let done = add_clickhouse H is_zero two zero_value quote p layout regs s in
        done.0 ≡ ok all
        → (all ≡ register H is_zero two zero_value quote p layout "clickhouse" regs)
          × IsConfigured H L (clickhouse_config H layout) done.1
          × (H.stat (ClickHouse.binary_path H (clickhouse_config H layout)) done.1 ≡ true)
          × (L.contents yaml_path done.1 ≡ L.contents yaml_path s)
  unfolding add_clickhouse found_binary
  add_clickhouse_lem regs s {all} h =
      let cfg = clickhouse_config H layout in
      let (configured, others) = generate_config-IsConfigured H L cfg s in
      let (config_name, (users_name, rest)) = L.named cfg.bin_dir in
      let dir = (redpanda_config H layout).bin_dir in
      let (config_there, (users_there, (binary_there, (yaml_name, more)))) = L.named dir in
      let kept =
        others yaml_path (joined_differ H L.base cfg.bin_dir dir config_name yaml_name refl)
          (joined_differ H L.base cfg.bin_dir dir users_name yaml_name refl) in
      elim (Option-cases (ClickHouse.generate_config H cfg s).0) [
        | inr (e, q) ↦ absurd (ground (arith, q, h))
        | inl q ↦
            let found =
              H.stat (ClickHouse.binary_path H cfg) (ClickHouse.generate_config H cfg s).1 in
            elim (Bool-cases found) [
              | inr k ↦ absurd (ground (arith, q, k, h))
              | inl k ↦
                  rw (add_clickhouse, found_binary, q, k)
                    (ground (arith, q, k, h), configured q, k, kept)
            ]
      ]

  redpanda_written :
      (s : S)
      → let done = Redpanda.generate_config H quote (redpanda_config H layout) s in
        done.0 ≡ none → L.contents yaml_path done.1 ≡ some yaml
  unfolding Redpanda.generate_config
  redpanda_written s h =
      let cfg = redpanda_config H layout in
      let P : S → Type 0 = (λ x. L.contents yaml_path x ≡ some yaml) in
      checked-done P _ (H.mkdir_all cfg.bin_dir s) _ h (λ q1 h1.
        let s1 = (H.mkdir_all cfg.bin_dir s).1 in
        checked-done P _ (H.mkdir_all cfg.data_dir s1) _ h1 (λ q2 h2.
          let s2 = (H.mkdir_all cfg.data_dir s1).1 in
          checked-done P _ (H.write_file yaml_path yaml s2) _ h2
            (λ q3 h3. L.written yaml_path yaml s2 q3)))

  -- Where `runControlPlane` gets to `Start`, the services to start are Redpanda, on Linux alone, and
  -- then ClickHouse; `redpanda.yaml`, if it is needed, `config.xml` and `users.xml` have the
  -- configuration of this program, whatever was there before, and the binary of ClickHouse is there.
  pub prepare-IsPrepared :
      (s : S) {regs : List (Registration F)}
      → let done = prepare H is_zero two zero_value quote p layout s in
        done.0 ≡ ok regs → IsPrepared regs done.1
  unfolding prepare add_services configured_redpanda Lifecycle.register
  prepare-IsPrepared s {regs} h =
      let (made, s1) = H.mkdir_all layout.data_dir s in
      elim (Option-cases made) [
        | inr (e, q) ↦ absurd (ground (arith, q, h))
        | inl q ↦ elim (Bool-cases (on_linux p)) [
          | inr k ↦
              let (all, clickhouse, binary, kept) =
                add_clickhouse_lem [] s1 (rw (prepare, add_services, q, k) at h) in
              rw (prepare, add_services, q, k)
                (record {
                  services = rw k (ap names all);
                  redpanda = λ linux. absurd (let both = sym k ∙ linux in cc);
                  clickhouse = clickhouse;
                  binary = binary;
                })
          | inl k ↦
              let (failure, s2) = Redpanda.generate_config H quote (redpanda_config H layout) s1 in
              elim (Option-cases failure) [
                | inr (e, g) ↦ absurd (ground (arith, q, k, g, h))
                | inl g ↦
                    let (all, clickhouse, binary, kept) =
                      add_clickhouse_lem
                        (register H is_zero two zero_value quote p layout "redpanda" []) s2
                        (rw (prepare, add_services, q, k, g) at h) in
                    rw (prepare, add_services, q, k, g)
                      (record {
                        services = rw k (ap names all);
                        redpanda = λ linux. kept ∙ redpanda_written s1 g;
                        clickhouse = clickhouse;
                        binary = binary;
                      })
              ]
        ]
      ]
