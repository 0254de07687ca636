-- ===== src/Services/ClickHouse/Downloaded.antt =====
-- What `Download` of engine/clickhouse/clickhouse.go leaves at the path of the binary.
use hermi_nas.Kernel.Errors.{Result-cases, ok}
use hermi_nas.Services.ClickHouse.{stored, asset_of, download, download_url, fetch, fetched, filled}
use hermi_nas.Prelude.{
  Bool-cases, Option-cases, String, arith, inl, inr, none, refl, some, subst, ◌==◌, ◌≡◌, ==_iff,
}
use hermi_nas.QueryBroker.Broker.{Response}
use hermi_nas.Services.{Host, Laws, Platform}

module _ {S : Type 0} (H : Host S) (L : Laws H) (p : Platform) (dir : String) where
  -- The builds have an asset for the platform, whose download was answered with status 200 and a
  -- whole body, which is now the file.
  pub record IsDownloaded (s : S) (dest : String) (s' : S) : Type 0 where
    pub asset : String
    pub known : asset_of p ≡ some asset
    pub at : dest ≡ H.join dir "clickhouse"
    pub resp : Response
    pub answered : (H.get (download_url asset) (H.mkdir_all dir s).1).0 ≡ ok resp
    pub good : resp.status ≡ 200
    pub whole : resp.read_error ≡ none
    pub content : L.contents dest s' ≡ some resp.body

  -- Where `Download` gives a path, it is that of the binary in the directory, and the file there is
  -- the whole body that the build server answered, with status 200, for the asset of the platform.
  pub download-IsDownloaded :
      (s : S) {dest : String}
      → let done = download H p dir s in done.0 ≡ ok dest → IsDownloaded s dest done.1
  unfolding download fetch fetched filled stored
  download-IsDownloaded s {dest} h = elim (Option-cases (asset_of p)) [
    | inl q ↦ absurd (ground (arith, q, h))
    | inr (asset, q) ↦
        let (made, s1) = H.mkdir_all dir s in
        let (answer, s2) = H.get (download_url asset) s1 in
        elim (Option-cases made) [
          | inr (e, k) ↦ absurd (ground (arith, q, k, h))
          | inl k ↦ elim (Result-cases answer) [
            | inr (e, a) ↦ absurd (ground (arith, q, k, a, h))
            | inl (resp, a) ↦ elim (Bool-cases (resp.status == 200)) [
              | inr t ↦ absurd (ground (arith, q, k, a, t, h))
              | inl t ↦
                  let path = H.join dir "clickhouse" in
                  let (opening, s3) = H.open_truncated path s2 in
                  let (copying, s4) = H.copy path resp s3 in
                  elim (Option-cases opening) [
                    | inr (e, o) ↦ absurd (ground (arith, q, k, a, t, o, h))
                    | inl o ↦ elim (Option-cases copying) [
                      | inr (e, c) ↦ absurd (ground (arith, q, k, a, t, o, c, h))
                      | inl c ↦
                          let (whole, content) = L.copied path resp s3 (L.opened path s2 o) c in
                          let same : path ≡ dest = ground (arith, q, k, a, t, o, c, h) in
                          rw (download, q, k, a, t, o, c)
                            (subst (λ x. IsDownloaded s x s4) same
                              (record {
                                asset = asset;
                                known = q;
                                at = refl;
                                resp = resp;
                                answered = a;
                                good = (==_iff resp.status 200).0 t;
                                whole = whole;
                                content = content;
                              }))
                    ]
                  ]
            ]
          ]
        ]
  ]
