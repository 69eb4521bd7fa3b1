-- ===== src/Cloud/Answers.antt =====
-- What the cloud's answers lead to.
use pcbu_desktop.Base.{
  ℕ, ◌≡◌, refl, ◌⊎◌, inl, inr, Bool, true, false, not, ◌||◌, Option, none, some, leb, if◌then◌else◌,
  Bytes, codes, str_eq, str_eq_iff, ap, ◌∙◌, is_empty, Bool-cases, Option-cases, arith,
}
use pcbu_desktop.Storage.{JsonLib}
use pcbu_desktop.Unlock.State.{UnlockState, is_unknown, is_success}
use pcbu_desktop.Cloud.{
  HttpResult, CloudRelayInfo, CloudUnlockStatus, status_of_code, subscription_status, body_text,
  relay_info, unlock_answer, request_cloud_unlock, map_request_error, CloudClient, Connected, ended,
  relayed, connect_thread, is_ok,
}

-- A state that ends RunServer without an unlock.
abbrev pub IsFailure : UnlockState → Type 0
IsFailure state = (is_unknown state ≡ false) × (is_success state ≡ false)

map_request_error-IsFailure : (status : CloudUnlockStatus) → IsFailure (map_request_error status)
unfolding map_request_error
map_request_error-IsFailure CloudUnlockStatus.ok = (refl, refl)
map_request_error-IsFailure CloudUnlockStatus.rate_limited = (refl, refl)
map_request_error-IsFailure CloudUnlockStatus.invalid_token = (refl, refl)
map_request_error-IsFailure CloudUnlockStatus.device_unknown = (refl, refl)
map_request_error-IsFailure CloudUnlockStatus.pairing_revoked = (refl, refl)
map_request_error-IsFailure CloudUnlockStatus.no_subscription = (refl, refl)
map_request_error-IsFailure CloudUnlockStatus.subscription_stale = (refl, refl)
map_request_error-IsFailure CloudUnlockStatus.subscription_on_hold = (refl, refl)
map_request_error-IsFailure CloudUnlockStatus.subscription_paused = (refl, refl)
map_request_error-IsFailure CloudUnlockStatus.device_stale = (refl, refl)
map_request_error-IsFailure CloudUnlockStatus.phone_unreachable = (refl, refl)
map_request_error-IsFailure CloudUnlockStatus.server_unreachable = (refl, refl)
map_request_error-IsFailure CloudUnlockStatus.unsupported_version = (refl, refl)
map_request_error-IsFailure CloudUnlockStatus.error = (refl, refl)

module _ {J : Type 0} (lib : JsonLib J) where
  -- The answer of the server that the relay comes from.
  abbrev pub IsOffered : Option HttpResult → CloudRelayInfo → Type 0
  IsOffered none info = ⊥
  IsOffered (some r) info =
      (r.ok ≡ true)
      × (r.status ≡ 200)
      × (body_text lib r.body (codes "result") ≡ some (codes "OK"))
      × (is_empty info.session_id ≡ false)
      × (is_empty info.relay_url ≡ false)
      × (is_empty info.join_token ≡ false)
      × (body_text lib r.body (codes "sessionId") ≡ some info.session_id)
      × (body_text lib r.body (codes "relayUrl") ≡ some info.relay_url)
      × (body_text lib r.body (codes "joinToken") ≡ some info.join_token)

  -- Where the connection's thread stops or goes on.
  abbrev pub Allows : CloudClient → Bool → Option HttpResult → Connected → Type 0
  Allows c is_running r (ended d) =
      (d.is_running ≡ false) × (IsFailure d.state ⊎ ((is_running ≡ false) × (d.state ≡ c.state)))
  Allows c is_running r (relayed d info) = (d.state ≡ c.state) × IsOffered r info

  -- What relay_info gives for a body.
  abbrev RelayCases : Bytes → Type 0
  RelayCases body =
      (relay_info lib body ≡ none)
      ⊎ ((info : CloudRelayInfo) × (relay_info lib body ≡ some info)
          × (body_text lib body (codes "result") ≡ some (codes "OK"))
          × (is_empty info.session_id ≡ false)
          × (is_empty info.relay_url ≡ false)
          × (is_empty info.join_token ≡ false)
          × (body_text lib body (codes "sessionId") ≡ some info.session_id)
          × (body_text lib body (codes "relayUrl") ≡ some info.relay_url)
          × (body_text lib body (codes "joinToken") ≡ some info.join_token))

  relay_info_complete :
      (body answer session_id relay_url join_token : Bytes)
      → body_text lib body (codes "result") ≡ some answer
      → str_eq answer (codes "OK") ≡ true
      → body_text lib body (codes "sessionId") ≡ some session_id
      → body_text lib body (codes "relayUrl") ≡ some relay_url
      → body_text lib body (codes "joinToken") ≡ some join_token
      → relay_info lib body ≡ (
          if is_empty session_id || is_empty relay_url || is_empty join_token
          then none
          else some
              (record { session_id = session_id; relay_url = relay_url; join_token = join_token }))
  unfolding relay_info
  relay_info_complete body answer session_id relay_url join_token r is_ok s u j =
      rw (r, relay_info)
        (rw is_ok (rw (s, relay_info) (rw (u, relay_info) (rw (j, relay_info) refl))))

  relay_info-cases : (body : Bytes) → RelayCases body
  unfolding relay_info
  relay_info-cases body = elim (Option-cases (body_text lib body (codes "result"))) [
    | inl r ↦ inl (rw (r, relay_info) refl)
    | inr (answer, r) ↦ elim (Bool-cases (str_eq answer (codes "OK"))) [
      | inr bad ↦ inl (rw (r, relay_info) (rw bad refl))
      | inl good ↦ elim (Option-cases (body_text lib body (codes "sessionId"))) [
        | inl s ↦ inl (rw (r, relay_info) (rw good (rw (s, relay_info) refl)))
        | inr (session_id, s) ↦ elim (Option-cases (body_text lib body (codes "relayUrl"))) [
          | inl u ↦
              inl (rw (r, relay_info) (rw good (rw (s, relay_info) (rw (u, relay_info) refl))))
          | inr (relay_url, u) ↦ elim (Option-cases (body_text lib body (codes "joinToken"))) [
            | inl j ↦ inl (
                rw (r, relay_info)
                  (rw good (rw (s, relay_info) (rw (u, relay_info) (rw (j, relay_info) refl)))))
            | inr (join_token, j) ↦
                let whole =
                  relay_info_complete body answer session_id relay_url join_token r good s u j in
                elim (Bool-cases
                  (is_empty session_id || is_empty relay_url || is_empty join_token)) [
                    | inl missing ↦ inl (rw missing at whole)
                    | inr full ↦ inr (
                      record {
                        session_id = session_id;
                        relay_url = relay_url;
                        join_token = join_token;
                      },
                      rw full at whole,
                      r ∙ ap some ((str_eq_iff answer (codes "OK")).0 good),
                      ground arith,
                      ground arith,
                      ground arith,
                      s,
                      u,
                      j,
                    )
                  ]
          ]
        ]
      ]
    ]
  ]

  status_of_code-none : (code : ℕ) (o : Option Bytes) → status_of_code code o ≡ none → code ≡ 200
  unfolding status_of_code
  status_of_code-none code o h = ground arith

  subscription_status-not_ok : (o : Option Bytes) → is_ok (subscription_status o) ≡ false
  unfolding subscription_status
  subscription_status-not_ok none = refl
  subscription_status-not_ok (some text) = ground arith

  status_of_code-not_ok :
      (code : ℕ) (o : Option Bytes) (status : CloudUnlockStatus)
      → status_of_code code o ≡ some status
      → is_ok status ≡ false
  unfolding status_of_code
  status_of_code-not_ok code o status h = ground (arith, subscription_status-not_ok o)

  -- A request gives a relay with its status Ok, or another status and no relay.
  abbrev RequestCases : Option HttpResult → Type 0
  RequestCases r =
      (is_ok (request_cloud_unlock lib r).status ≡ false)
      ⊎ ((info : CloudRelayInfo) × (request_cloud_unlock lib r
            ≡ record { status = CloudUnlockStatus.ok; info = info })
          × IsOffered r info)

  request_cloud_unlock-cases : (r : Option HttpResult) → RequestCases r
  unfolding request_cloud_unlock unlock_answer
  request_cloud_unlock-cases none = inl refl
  request_cloud_unlock-cases (some r) = elim (Bool-cases (not r.ok || leb 500 r.status)) [
    | inl bad ↦ inl (rw bad refl)
    | inr fine ↦
        elim (Option-cases (status_of_code r.status (body_text lib r.body (codes "result")))) [
          | inr (status, e) ↦ inl (
              rw fine (
                rw e (
                  status_of_code-not_ok r.status (body_text lib r.body (codes "result")) status e)))
          | inl e ↦ elim (relay_info-cases r.body) [
            | inl f ↦ inl (rw fine (rw (e, f) refl))
            | inr (info, f, is_ok_text, s, u, j, hs, hu, hj) ↦ inr (
              info,
              rw fine (rw (e, f) refl),
              (
                ground arith,
                status_of_code-none r.status (body_text lib r.body (codes "result")) e,
                is_ok_text,
                s,
                u,
                j,
                hs,
                hu,
                hj,
              ),
            )
          ]
        ]
  ]

  -- The thread of the cloud's connection goes on to the relay only if the server answered 200 with the
  -- result OK and with a relay, a session and a token that are not empty, and these are the ones it uses.
  -- Else it has stopped, with a state that is neither unknown nor a success, or with its state as it was if
  -- the request was stopped.
  pub connect_thread-Allows :
      (c : CloudClient) (is_running connects : Bool) (r : Option HttpResult)
      → Allows c is_running r (connect_thread c is_running connects (request_cloud_unlock lib r))
  unfolding connect_thread
  connect_thread-Allows c is_running connects r = elim (request_cloud_unlock-cases r) [
    | inl e ↦ elim (Bool-cases is_running) [
      | inl runs ↦
          rw (e, runs) (refl, inl (map_request_error-IsFailure (request_cloud_unlock lib r).status))
      | inr stopped ↦ rw (e, stopped) (refl, inr (refl, refl))
    ]
    | inr (info, e, h) ↦ elim (Bool-cases connects) [
      | inl up ↦ rw (e, up) (refl, h)
      | inr down ↦ rw (e, down) (refl, inl (refl, refl))
    ]
  ]
