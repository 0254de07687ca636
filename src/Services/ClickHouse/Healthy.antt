-- ===== src/Services/ClickHouse/Healthy.antt =====
-- When the check of engine/clickhouse/clickhouse.go reports ClickHouse healthy.
use hermi_nas.Services.ClickHouse.{selected, health_check, ping_url, probe, select_url, probed}
use hermi_nas.Prelude.{
  ◌∙◌, ap, ◌↔◌, Bool-cases, Option-cases, String, arith, codes, inl, inr, none, refl, ℕ, ◌==◌, ◌≡◌,
  ==_iff,
}
use hermi_nas.Kernel.Errors.{Bytes, Error, Result, ok, err}
use hermi_nas.Lines.{trim_space}
use hermi_nas.QueryBroker.Broker.{Response}
use hermi_nas.Services.{Host, bytes_eq, bytes_eq_iff}
use hermi_nas.Supervisor.ExecProcess.{healthy}

module _ {S : Type 0} (H : Host S) where
  -- The request can be made, and is answered with status 200 and the text, up to white space.
  pub Answers : Bytes → String → S → Type 0
  Answers url want s =
      (H.bad_url url ≡ none)
      × ((resp : Response) × ((H.get url s).0 ≡ ok resp)
          × (resp.status ≡ 200)
          × (trim_space resp.body ≡ codes want))

  ok_injective : {a b : Response} → ok a ≡ ok b → a ≡ b
  ok_injective h = cc

  probed_iff :
      (url : Bytes) (want : String) (answer : Result Response)
      → (probed H url want answer ≡ none) ↔ (
          (resp : Response) × (answer ≡ ok resp)
          × (resp.status ≡ 200)
          × (trim_space resp.body ≡ codes want))
  unfolding probed
  probed_iff url want (err e) = (λ h. cc, λ (resp, q, status, body). cc)
  probed_iff url want (ok resp) =
      let texts = bytes_eq_iff (trim_space resp.body) (codes want) in
      (
        λ h. elim (Bool-cases (resp.status == 200)) [
          | inr q ↦ absurd (ground (arith, q, h))
          | inl q ↦ elim (Bool-cases (bytes_eq (trim_space resp.body) (codes want))) [
            | inr k ↦ absurd (ground (arith, q, k, h))
            | inl k ↦ (resp, refl, (==_iff resp.status 200).0 q, texts.0 k)
          ]
        ],
        λ (resp', q, status, body).
            let same : resp ≡ resp' = ok_injective q in
            let good = (==_iff resp.status 200).1 (ap (λ r. r.status) same ∙ status) in
            let wanted = texts.1 (ap (λ r. trim_space r.body) same ∙ body) in
            rw (good, wanted) refl,
      )

  probe_iff :
      (url : Bytes) (want : String) (s : S) → ((probe H url want s).0 ≡ none) ↔ Answers url want s
  unfolding probe Answers
  probe_iff url want s = elim (Option-cases (H.bad_url url)) [
    | inr (e, q) ↦ (λ h. absurd (ground (arith, q, h)), λ (good, rest). absurd (let k = good in cc))
    | inl q ↦
        let (there, back) = probed_iff url want (H.get url s).0 in
        (λ h. (q, there (rw (probe, q) at h)), λ (good, rest). rw (probe, q) (back rest))
  ]

  module _ (print : Error → String) where
    -- The check reports ClickHouse healthy exactly if `/ping` is answered with 200 and "Ok.", and
    -- then, in the state that this leaves, `SELECT 1` is answered with 200 and "1".
    pub health_check_iff :
        (port now : ℕ) (s : S)
        → ((health_check H print port now s).0.state ≡ healthy) ↔ (
            Answers (ping_url port) "Ok." s
            × Answers (select_url port) "1" (probe H (ping_url port) "Ok." s).1)
    unfolding health_check selected
    health_check_iff port now s =
        let (failure, s1) = probe H (ping_url port) "Ok." s in
        let pinged = probe_iff (ping_url port) "Ok." s in
        let selects = probe_iff (select_url port) "1" s1 in
        elim (Option-cases failure) [
          | inr (e, q) ↦
              (λ h. absurd (ground (arith, q, h)), λ (a, b). absurd (let k = pinged.1 a in cc))
          | inl q ↦ elim (Option-cases (probe H (select_url port) "1" s1).0) [
            | inr (e, k) ↦ (
              λ h. absurd (ground (arith, q, k, h)),
              λ (a, b). absurd (let z = selects.1 b in cc),
            )
            | inl k ↦
                (λ h. (pinged.0 q, selects.0 k), λ both. rw (health_check, selected, q, k) refl)
          ]
        ]
