-- ===== src/Client/Requests/Fresh.antt =====
-- Which tokens internal/apiclient sends.
use mockingo_agent.Base.{
  Bool, true, false, ◌&&◌, not, List, [], ◌∷◌, Bytes, bytes_eq, pos, eq_int, eq_int_iff, ◌≡◌, refl,
  arith, inl, inr, ◌⊎◌, sym, ap, ◌∙◌, subst, Bool-cases,
}
use mockingo_agent.Oauth.Credentials.{OauthCredentials}
use mockingo_agent.Oauth.Tokens.{TokenResponse}
use mockingo_agent.Client.Requests.{
  Stored, missing, unreadable, found, Refreshed, refreshed, Credentialed, ready, denied, Change,
  unchanged, deleted, saved, Account, is_fresh, with_tokens, credentials, Sent, responded,
  do_request, unsent, second_attempt, second_answer, first_response, first_attempt, signed_out,
  invalid_grant, refresh_failed, save, after_refresh, under_lock, with_first, ClientError,
  save_failed, not_signed_in, store_failed, refresh_error,
}

-- Credentials that were read and do not expire soon, or those of a refresh, which are saved.
abbrev pub Usable : Account → OauthCredentials → Change → Type 0
Usable account c change =
    ((account.first ≡ found c) × (is_fresh account.soon c ≡ true) × (change ≡ unchanged))
    ⊎ ((account.latest ≡ found c) × (is_fresh account.later c ≡ true) × (change ≡ unchanged))
    ⊎ ((latest : OauthCredentials) × (new : TokenResponse) × (account.latest ≡ found latest)
        × (account.refresh latest ≡ refreshed new)
        × (c ≡ with_tokens latest new)
        × (change ≡ saved c))

ready-injective : (a c : OauthCredentials) → ready a ≡ ready c → a ≡ c
ready-injective a c h = cc

module _ (account : Account) (c : OauthCredentials) where
  denied-Usable : (e : ClientError) (change : Change) → denied e ≡ ready c → Usable account c change
  denied-Usable e change h = absurd cc

  save-Usable :
      (set_succeeds : Bool) (latest : OauthCredentials) (new : TokenResponse)
      → account.latest ≡ found latest
      → account.refresh latest ≡ refreshed new
      → (save set_succeeds (with_tokens latest new)).0 ≡ ready c
      → Usable account c (save set_succeeds (with_tokens latest new)).1
  save-Usable true latest new e r h =
      let same = ready-injective (with_tokens latest new) c h in
      inr (inr (latest, new, e, r, sym same, ap saved same))
  save-Usable false latest new e r h = denied-Usable save_failed unchanged h

  after_refresh-Usable :
      (latest : OauthCredentials) (r : Refreshed)
      → account.latest ≡ found latest
      → account.refresh latest ≡ r
      → (after_refresh account latest r).0 ≡ ready c
      → Usable account c (after_refresh account latest r).1
  after_refresh-Usable latest invalid_grant e r h = denied-Usable signed_out deleted h
  after_refresh-Usable latest refresh_failed e r h = denied-Usable refresh_error unchanged h
  after_refresh-Usable latest (refreshed new) e r h =
      save-Usable account.set_succeeds latest new e r h

  latest-Usable :
      (latest : OauthCredentials)
      → account.latest ≡ found latest
      → is_fresh account.later latest ≡ true
      → ready latest ≡ ready c
      → Usable account c unchanged
  latest-Usable latest e fresh h =
      let same = ready-injective latest c h in
      inr (inl (e ∙ ap found same, subst (λ x. is_fresh account.later x ≡ true) same fresh, refl))

  under_lock-Usable :
      (force_refresh : Bool) (first : OauthCredentials) (s : Stored)
      → account.latest ≡ s
      → (under_lock account force_refresh first s).0 ≡ ready c
      → Usable account c (under_lock account force_refresh first s).1
  under_lock-Usable force_refresh first missing e h = denied-Usable not_signed_in unchanged h
  under_lock-Usable force_refresh first unreadable e h = denied-Usable store_failed unchanged h
  under_lock-Usable false first (found latest) e h =
      elim (Bool-cases (is_fresh account.later latest)) [
        | inl fresh ↦ rw fresh (latest-Usable latest e fresh (rw fresh at h))
        | inr stale ↦
            rw stale (after_refresh-Usable latest (account.refresh latest) e refl (rw stale at h))
      ]
  under_lock-Usable true first (found latest) e h =
      elim (Bool-cases
        (not (bytes_eq latest.access_token first.access_token) && is_fresh account.later latest)) [
          | inl new ↦ rw new (latest-Usable latest e (ground arith) (rw new at h))
          | inr old ↦
              rw old (after_refresh-Usable latest (account.refresh latest) e refl (rw old at h))
        ]

  with_first-Usable :
      (force_refresh : Bool) (s : Stored)
      → account.first ≡ s
      → (with_first account force_refresh s).0 ≡ ready c
      → Usable account c (with_first account force_refresh s).1
  with_first-Usable force_refresh missing e h = denied-Usable not_signed_in unchanged h
  with_first-Usable force_refresh unreadable e h = denied-Usable store_failed unchanged h
  with_first-Usable true (found first) e h = under_lock-Usable true first account.latest refl h
  with_first-Usable false (found first) e h = elim (Bool-cases (is_fresh account.soon first)) [
    | inl fresh ↦
        let same = ready-injective first c (rw fresh at h) in
        rw fresh
          (inl (e ∙ ap found same, subst (λ x. is_fresh account.soon x ≡ true) same fresh, refl))
    | inr stale ↦ rw stale (under_lock-Usable false first account.latest refl (rw stale at h))
  ]

-- Whatever the store, the clock and the refresh answer, credentials that are given out are those of
-- the first read or of the read under the lock, not about to expire and with the store left as it
-- is, or those of a successful refresh of what was read under the lock, which have been saved.
pub credentials-Usable :
    (account : Account) (force_refresh : Bool) (c : OauthCredentials)
    → (credentials account force_refresh).0 ≡ ready c
    → Usable account c (credentials account force_refresh).1
unfolding credentials
credentials-Usable account force_refresh c h =
    with_first-Usable account c force_refresh account.first refl h

-- No token; one, which the account gave without a forced refresh; or two, the second given with a
-- forced refresh, where the answer to the first was 401.
abbrev pub Attempts : (Bytes → Sent) → Account → Account → List Bytes → Type 0
Attempts send account later [] = Unit
Attempts send account later (t ∷ []) =
    (c : OauthCredentials) × ((credentials account false).0 ≡ ready c) × (t ≡ c.access_token)
Attempts send account later (t ∷ u ∷ []) =
    ((c d : OauthCredentials) × ((credentials account false).0 ≡ ready c)
      × (t ≡ c.access_token)
      × ((credentials later true).0 ≡ ready d)
      × (u ≡ d.access_token))
    × (send t ≡ responded (pos 401))
Attempts send account later (t ∷ u ∷ v ∷ more) = ⊥

module _ (send : Bytes → Sent) (account later : Account) where
  second_attempt-Attempts :
      (c : OauthCredentials) (again : Credentialed)
      → (credentials account false).0 ≡ ready c
      → (credentials later true).0 ≡ again
      → send c.access_token ≡ responded (pos 401)
      → Attempts send account later (second_attempt send c.access_token again).1
  second_attempt-Attempts c (denied e) first second unauthorized = (c, first, refl)
  second_attempt-Attempts c (ready d) first second unauthorized = by_answer (send d.access_token)
    where
      by_answer :
          (x : Sent) → Attempts send account later (second_answer c.access_token d.access_token x).1
      by_answer unsent = ((c, d, first, refl, second, refl), unauthorized)
      by_answer (responded status) = ((c, d, first, refl, second, refl), unauthorized)

  first_response-Attempts :
      (c : OauthCredentials) (x : Sent)
      → (credentials account false).0 ≡ ready c
      → send c.access_token ≡ x
      → Attempts send account later
          (first_response send c.access_token (credentials later true).0 x).1
  first_response-Attempts c unsent first e = (c, first, refl)
  first_response-Attempts c (responded status) first e =
      elim (Bool-cases (eq_int status (pos 401))) [
        | inr other ↦ rw other (c, first, refl)
        | inl unauthorized ↦ rw unauthorized (
            second_attempt-Attempts c (credentials later true).0 first refl
              (e ∙ ap responded ((eq_int_iff status (pos 401)).0 unauthorized)))
      ]

  first_attempt-Attempts :
      (r : Credentialed)
      → (credentials account false).0 ≡ r
      → Attempts send account later (first_attempt send r (credentials later true).0).1
  first_attempt-Attempts (denied e) first = tt
  first_attempt-Attempts (ready c) first =
      first_response-Attempts c (send c.access_token) first refl

-- Whatever the server answers, a request sends at most two access tokens: the first is one that the
-- account gave out without a forced refresh; a second is sent only after the answer 401 to the
-- first, and is one that the account gave out with a forced refresh.
pub do_request-Attempts :
    (send : Bytes → Sent) (account later : Account)
    → Attempts send account later (do_request send account later).1
unfolding do_request
do_request-Attempts send account later =
    first_attempt-Attempts send account later (credentials account false).0 refl
