-- ===== src/Voyages/Triggers/Laws.antt =====
-- The webhook of api/v1/triggers.py against the conditions of its guards.
use text.Mathlib.Text.{starts_with}
use text.Mathlib.TextPositions.{starts_with-append, eq_refl}
use text.Mathlib.TextLemmas.{nil-append, cons-append}
use text.Mathlib.TextEquality.{starts_with_iff}
use Prim.Native.String.{◌++◌ as ◌+s+◌}
use grand_line.Common.{
  ℕ, suc, String, ◌≡◌, refl, ap, sym, ◌∙◌, true, false, ◌&&◌, Option, none, some, List, inl, inr,
  ◌⊎◌, ◌↔◌, str_eq, eq_iff, arith, Bool-cases,
}
use grand_line.Voyages.Rows.{VoyageTables}
use grand_line.Voyages.Triggers.{
  GithubIssueWebhook, User, TriggerSettings, Digest, digest_says, type_error, is_ascii,
  compare_digest, from_char, digest_of, check_digest, verify_github_signature, should_trigger,
  Resolved, resolved, unresolved, resolve_trigger_user, TriggerResponse, charted_voyage_id,
  ingest_github_issue, chart_for, trigger_parsed, trigger_verified, github_trigger,
}

compared : (a b : String) → compare_digest a b ≡ digest_says true → a ≡ b
compared a b h = elim (Bool-cases (is_ascii a && is_ascii b)) [
  | inl e ↦
      let same : digest_says (str_eq a b) ≡ digest_says true = rw e at h in
      (eq_iff a b).0 (ground arith)
  | inr e ↦ let clash : type_error ≡ digest_says true = rw e at h in absurd (cc)
]

abbrev size : String → ℕ
size String.[] = 0
size (String.◌∷◌ c s) = suc (size s)

from_char-append : (p t : String) → from_char (size p) (p +s+ t) ≡ t
from_char-append String.[] t = nil-append t
from_char-append (String.◌∷◌ c p) t =
    ap (from_char (suc (size p))) (cons-append c p t) ∙ from_char-append p t

checked :
    (computed : String) (header : Option String)
    → check_digest computed (digest_of header) ≡ digest_says true
    → header ≡ some ("sha256=" +s+ computed)
checked computed none h = cc
checked computed (some s) h = elim (Bool-cases (starts_with s "sha256=")) [
  | inl e ↦
      let (t, split) = (starts_with_iff s "sha256=").0 e in
      let digest : from_char 7 s ≡ computed = sym (compared computed (from_char 7 s) (rw e at h)) in
      let tail : t ≡ computed =
        sym (from_char-append "sha256=" t) ∙ ap (from_char 7) split ∙ digest in
      ap some (sym split ∙ ap (λ r. "sha256=" +s+ r) tail)
  | inr e ↦ let clash : digest_says false ≡ digest_says true = rw e at h in absurd (cc)
]

-- A verified request: the secret is configured, and the header holds the digest of the body.
verified :
    (hmac : String → String → String) (raw : String) (header secret : Option String)
    → verify_github_signature hmac raw header secret ≡ digest_says true
    → (key : String) × (secret ≡ some key) × (header ≡ some ("sha256=" +s+ hmac key raw))
unfolding verify_github_signature
verified hmac raw header none h = cc
verified hmac raw header (some key) h = (key, refl, checked (hmac key raw) header h)

verified_back :
    (hmac : String → String → String) (raw key : String)
    → is_ascii (hmac key raw) ≡ true
    → verify_github_signature hmac raw (some ("sha256=" +s+ hmac key raw)) (some key)
      ≡ digest_says true
unfolding verify_github_signature
verified_back hmac raw key ascii =
    rw
      (
        starts_with-append "sha256=" (hmac key raw),
        from_char-append "sha256=" (hmac key raw),
        ascii,
        eq_refl (hmac key raw),
      )
      refl

-- The request bears the digest of its body under the configured secret, the body parses to an event
-- that passes the gate, and the configured user exists.
abbrev pub IsAccepted :
    (String → String → String)
    → TriggerSettings
    → List User
    → String
    → Option String
    → Option GithubIssueWebhook
    → GithubIssueWebhook
    → User
    → Type 0
IsAccepted hmac settings users raw header parsed p user =
    ((key : String) × (settings.webhook_secret ≡ some key)
      × (header ≡ some ("sha256=" +s+ hmac key raw)))
    × (parsed ≡ some p)
    × (should_trigger settings.trigger_label p ≡ true)
    × (resolve_trigger_user settings.default_user_email users ≡ resolved user)

module _ {J : Type 0} (mapping : J) (settings : TriggerSettings) (users : List User)
    (now id : ℕ) where
  -- A response that charts nothing and leaves the tables.
  abbrev IsRefused : VoyageTables J → TriggerResponse × VoyageTables J → Type 0
  IsRefused t res = (res.1 ≡ t) × (res.0 ≡ charted_voyage_id id → ⊥)

  chart_for-cases :
      (p : GithubIssueWebhook) (r : Resolved) (t : VoyageTables J)
      → IsRefused t (chart_for mapping now id p r t) ⊎ ((user : User) × (r ≡ resolved user))
  chart_for-cases p (unresolved e) t = inl (refl, λ c. cc)
  chart_for-cases p (resolved user) t = inr (user, refl)

  trigger_parsed-cases :
      (parsed : Option GithubIssueWebhook) (t : VoyageTables J)
      → IsRefused t (trigger_parsed mapping settings users now id parsed t)
        ⊎ ((p : GithubIssueWebhook) × (user : User) × (parsed ≡ some p)
            × (should_trigger settings.trigger_label p ≡ true)
            × (resolve_trigger_user settings.default_user_email users ≡ resolved user))
  trigger_parsed-cases none t = inl (refl, λ c. cc)
  trigger_parsed-cases (some p) t = elim (Bool-cases (should_trigger settings.trigger_label p)) [
    | inl gate ↦
        elim (chart_for-cases p (resolve_trigger_user settings.default_user_email users) t) [
          | inl same ↦ inl (rw gate same)
          | inr (user, found) ↦ inr (p, user, refl, gate, found)
        ]
    | inr gate ↦ inl (rw gate (refl, λ c. cc))
  ]

  trigger_verified-cases :
      (parsed : Option GithubIssueWebhook) (d : Digest) (t : VoyageTables J)
      → IsRefused t (trigger_verified mapping settings users now id parsed d t)
        ⊎ ((d ≡ digest_says true)
            × ((p : GithubIssueWebhook) × (user : User) × (parsed ≡ some p)
                × (should_trigger settings.trigger_label p ≡ true)
                × (resolve_trigger_user settings.default_user_email users ≡ resolved user)))
  trigger_verified-cases parsed type_error t = inl (refl, λ c. cc)
  trigger_verified-cases parsed (digest_says false) t = inl (refl, λ c. cc)
  trigger_verified-cases parsed (digest_says true) t = elim (trigger_parsed-cases parsed t) [
    | inl same ↦ inl same
    | inr accepted ↦ inr (refl, accepted)
  ]

  github_trigger-cases :
      (hmac : String → String → String) (parse : String → Option GithubIssueWebhook) (raw : String)
      (header : Option String) (t : VoyageTables J)
      → IsRefused t (github_trigger mapping hmac parse settings users now id raw header t)
        ⊎ ((p : GithubIssueWebhook) × (user : User) × IsAccepted hmac settings users raw header
              (parse raw)
              p
              user)
  unfolding github_trigger
  github_trigger-cases hmac parse raw header t =
      let d = verify_github_signature hmac raw header settings.webhook_secret in
      elim (trigger_verified-cases (parse raw) d t) [
        | inl same ↦ inl same
        | inr (good, (p, user, body, gate, found)) ↦
            inr
              (p, user, (verified hmac raw header settings.webhook_secret good, body, gate, found))
      ]

  -- A request that is accepted charts the voyage of its issue for the user.
  accepted_charts :
      (hmac : String → String → String) (parse : String → Option GithubIssueWebhook) (raw : String)
      (header : Option String) (t : VoyageTables J) (p : GithubIssueWebhook) (user : User)
      → ((key : String) → is_ascii (hmac key raw) ≡ true)
      → IsAccepted hmac settings users raw header (parse raw) p user
      → github_trigger mapping hmac parse settings users now id raw header t
        ≡ (charted_voyage_id id, (ingest_github_issue mapping now id p user t).1)
  unfolding github_trigger
  accepted_charts hmac parse raw header t p user ascii
        ((key, configured, signed), parsed, gate, found) =
      rw (signed, configured, verified_back hmac raw key (ascii key), parsed, gate, found) refl

  -- The webhook answers that it charted the voyage exactly if the request bears the digest of its
  -- body under the configured secret, the body parses to an event that passes the gate, and the
  -- configured user exists; then it has added the voyage of this issue for this user, and otherwise
  -- nothing. The digests are taken to be ASCII.
  pub github_trigger_iff :
      (hmac : String → String → String) (parse : String → Option GithubIssueWebhook) (raw : String)
      (header : Option String) (t : VoyageTables J)
      → ((key : String) → is_ascii (hmac key raw) ≡ true)
      → (((github_trigger mapping hmac parse settings users now id raw header t).0
            ≡ charted_voyage_id id)
          ↔ ((p : GithubIssueWebhook) × (user : User) × IsAccepted hmac settings users raw header
                (parse raw)
                p
                user))
        × (((github_trigger mapping hmac parse settings users now id raw header t).1 ≡ t)
            ⊎ ((p : GithubIssueWebhook) × (user : User) × IsAccepted hmac settings users raw header
                  (parse raw)
                  p
                  user
                × (github_trigger mapping hmac parse settings users now id raw header t
                    ≡ (charted_voyage_id id, (ingest_github_issue mapping now id p user t).1))))
  github_trigger_iff hmac parse raw header t ascii =
      let sound = github_trigger-cases hmac parse raw header t in
      (
        (
          λ e. elim sound [ inl (same, refused) ↦ absurd (refused e) | inr accepted ↦ accepted ],
          λ (p, user, accepted).
              ap (λ (r : TriggerResponse × VoyageTables J). r.0)
                (accepted_charts hmac parse raw header t p user ascii accepted),
        ),
        elim sound [
          | inl (same, _) ↦ inl same
          | inr (p, user, accepted) ↦
              inr (p, user, accepted, accepted_charts hmac parse raw header t p user ascii accepted)
        ],
      )
