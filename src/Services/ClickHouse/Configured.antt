-- ===== src/Services/ClickHouse/Configured.antt =====
-- What `GenerateConfig` of engine/clickhouse/clickhouse.go leaves in the files.
use hermi_nas.SchemaMgr.Ddl.{decimal}
use hermi_nas.Kernel.Errors.{Bytes}
use mathlib.Core.List.{append_assoc}
use hermi_nas.Prelude.{[], ◌∷◌, codes, ◌++◌, refl, String, none, some, sym, ◌∙◌, ◌≡◌, ◌≢◌}
use hermi_nas.Services.{checked-done, joined_differ, Host, Laws, checked-kept}
use hermi_nas.Services.ClickHouse.{
  Config, line, lines, config_path, config_text, generate_config, users_path, users_text,
}

-- A text of XML has an element of the name with the content.
pub HasElement : String → Bytes → Bytes → Type 0
HasElement name content text =
    (before : Bytes) × (after : Bytes) × (text
      ≡ before
        ++ (codes "<"
            ++ (codes name
                ++ (codes ">"
                    ++ (content ++ (codes "</" ++ (codes name ++ (codes ">" ++ after))))))))

module _ {S : Type 0} (H : Host S) (L : Laws H) (cfg : Config) where
  -- The ports, the directories and the file of users that were asked for, each in its element.
  pub record IsConfiguration (text : Bytes) : Type 0 where
    pub http_port : HasElement "http_port" (decimal cfg.http_port) text
    pub tcp_port : HasElement "tcp_port" (decimal cfg.tcp_port) text
    pub path : HasElement "path" (codes cfg.data_dir ++ codes "/") text
    pub tmp_path : HasElement "tmp_path" (codes cfg.data_dir ++ codes "/tmp/") text
    pub users : HasElement "path" (codes (users_path H cfg)) text

  -- The lines in front of the ports, and the texts behind the port of HTTP, and so on.
  head : Bytes
  unfolding lines
  head = lines (
      "<clickhouse>" ∷ "    <logger>" ∷ "        <level>information</level>"
      ∷ "        <console>true</console>" ∷ "    </logger>" ∷ [])

  behind_users : Bytes
  unfolding lines
  behind_users =
      line "" (lines ("        </users_xml>" ∷ "    </user_directories>" ∷ "</clickhouse>" ∷ []))

  behind_tmp : Bytes
  unfolding lines behind_users
  behind_tmp =
      line "" (lines ("    <user_directories>" ∷ "        <users_xml>" ∷ []))
      ++ (codes "            <path>"
          ++ (codes (users_path H cfg) ++ (codes "</path>" ++ behind_users)))

  behind_path : Bytes
  unfolding behind_tmp
  behind_path =
      line "" (codes "    <tmp_path>")
      ++ (codes cfg.data_dir ++ (codes "/tmp/</tmp_path>" ++ behind_tmp))

  behind_tcp : Bytes
  unfolding behind_path
  behind_tcp =
      line "" (line "    <listen_host>127.0.0.1</listen_host>" (codes "    <path>"))
      ++ (codes cfg.data_dir ++ (codes "/</path>" ++ behind_path))

  behind_http : Bytes
  unfolding behind_tcp
  behind_http =
      line "" (codes "    <tcp_port>")
      ++ (decimal cfg.tcp_port ++ (codes "</tcp_port>" ++ behind_tcp))

  -- The texts in front of the elements.
  front_http : Bytes
  unfolding head
  front_http = head ++ codes "    "

  front_tcp : Bytes
  unfolding front_http
  front_tcp =
      front_http
      ++ (codes "<http_port>" ++ (decimal cfg.http_port ++ line "</http_port>" (codes "    ")))

  front_path : Bytes
  unfolding front_tcp
  front_path =
      front_tcp
      ++ (codes "<tcp_port>"
          ++ (decimal cfg.tcp_port
              ++ line "</tcp_port>"
                  (line "    <listen_host>127.0.0.1</listen_host>" (codes "    "))))

  front_tmp : Bytes
  unfolding front_path
  front_tmp =
      front_path ++ (codes "<path>" ++ (codes cfg.data_dir ++ line "/</path>" (codes "    ")))

  front_users : Bytes
  unfolding front_tmp lines
  front_users =
      front_tmp
      ++ (codes "<tmp_path>"
          ++ (codes cfg.data_dir
              ++ (line "/tmp/</tmp_path>"
                    (lines ("    <user_directories>" ∷ "        <users_xml>" ∷ []))
                  ++ codes "            ")))

  config_text-IsConfiguration : IsConfiguration (config_text H cfg)
  unfolding config_text lines HasElement head behind_http behind_tcp behind_path behind_tmp
      behind_users front_http front_tcp front_path front_tmp front_users
  config_text-IsConfiguration = record {
    http_port = (front_http, behind_http, simp append_assoc);
    tcp_port = (front_tcp, behind_tcp, simp append_assoc);
    path = (front_path, behind_path, simp append_assoc);
    tmp_path = (front_tmp, behind_tmp, simp append_assoc);
    users = (front_users, behind_users, simp append_assoc);
  }

  paths_differ : config_path H cfg ≢ users_path H cfg
  paths_differ =
      let (config_name, (users_name, rest)) = L.named cfg.bin_dir in
      joined_differ H L.base cfg.bin_dir cfg.bin_dir config_name users_name refl

  pub IsConfigured : S → Type 0
  IsConfigured s =
      (L.contents (config_path H cfg) s ≡ some (config_text H cfg))
      × IsConfiguration (config_text H cfg)
      × (L.contents (users_path H cfg) s ≡ some users_text)

  pub generate_config-IsConfigured :
      (s : S)
      → let done = generate_config H cfg s in
        (done.0 ≡ none → IsConfigured done.1)
        × ((path : String)
            → config_path H cfg ≢ path
            → users_path H cfg ≢ path
            → L.contents path done.1 ≡ L.contents path s)
  unfolding generate_config IsConfigured
  generate_config-IsConfigured s = (configured, others)
    where
      configured : (generate_config H cfg s).0 ≡ none → IsConfigured (generate_config H cfg s).1
      configured h = checked-done IsConfigured _ (H.mkdir_all cfg.bin_dir s) _ h (λ q1 h1.
          let s1 = (H.mkdir_all cfg.bin_dir s).1 in
          checked-done IsConfigured _ (H.mkdir_all cfg.data_dir s1) _ h1 (λ q2 h2.
            let s2 = (H.mkdir_all cfg.data_dir s1).1 in
            let s3 = (H.write_file (config_path H cfg) (config_text H cfg) s2).1 in
            checked-done IsConfigured _ (H.write_file (config_path H cfg) (config_text H cfg) s2) _
              h2
              (λ q3 h3.
                checked-done IsConfigured _ (H.write_file (users_path H cfg) users_text s3) _ h3
                  (λ q4 h4. (
                    L.written_else (users_path H cfg) (config_path H cfg) users_text s3
                          (λ e. paths_differ (sym e))
                        ∙ L.written (config_path H cfg) (config_text H cfg) s2 q3,
                    config_text-IsConfiguration,
                    L.written (users_path H cfg) users_text s3 q4,
                  )))))

      others :
          (path : String)
          → config_path H cfg ≢ path
          → users_path H cfg ≢ path
          → L.contents path (generate_config H cfg s).1 ≡ L.contents path s
      others path p q =
          let P : S → Type 0 = (λ x. L.contents path x ≡ L.contents path s) in
          checked-kept P _ (H.mkdir_all cfg.bin_dir s) _ (L.made cfg.bin_dir path s) (λ s1 h1.
            checked-kept P _ (H.mkdir_all cfg.data_dir s1) _ (L.made cfg.data_dir path s1 ∙ h1)
              (λ s2 h2.
                checked-kept P _ (H.write_file (config_path H cfg) (config_text H cfg) s2) _
                  (L.written_else (config_path H cfg) path (config_text H cfg) s2 p ∙ h2)
                  (λ s3 h3.
                    checked-kept P _ (H.write_file (users_path H cfg) users_text s3) _
                      (L.written_else (users_path H cfg) path users_text s3 q ∙ h3) (λ s4 h4. h4))))
