-- ===== src/Driver/Rest/Session.antt =====
-- The session of the client with the board: the JWT it keeps, and the renewal of one that is refused.
use wave_judge.Prelude.{
  Bool, true, false, Bool-cases, Option, none, some, [], ◌++◌, Text, codes, Result, ok, err, panic,
  map_err, ◌≡◌, inl, inr, refl,
}
use wave_judge.Prelude.Work.{Work, go_on}
use wave_judge.Driver.Rest.Pipeline.{
  PipelineError, reqwest_error, middleware_error, ChallengeInfo, method_post, method_patch, Net,
  Client, settle, in_world, Context, send_request, from_index, execute, try_clone, map_request,
}
use wave_judge.Driver.Rest.Auth.{
  is_refused, post_challenge, get_challenge_bytes, patch_answer, replace_jwt, prove_identity, renew,
  authenticate, handle_with_jwt, repeat_request, on_response, first_jwt, handle,
}
use wave_judge.Driver.Rest.Requests.{
  RestError, unsuccessful_status_code, middlewares, check_status, convert, request,
}

module _ {W Rq Rs : Type 0} (net : Net W Rq Rs) (url : Text) where
  -- The board lets the client in at a state of the world: it answers the challenge and the reply to
  -- it, the key fits, and it accepts the next request that carries the JWT.
  pub record Admits (w : W) : Type 0 where
    pub challenge_response : Rs
    pub challenged : W
    pub posts :
        net.send (net.request method_post (net.set_path (codes "/auth") url)) w
        ≡ (ok challenge_response, challenged)
    pub challenge : ChallengeInfo
    pub read : W
    pub reads : net.challenge_info challenge_response challenged ≡ (ok challenge, read)
    pub data_ : Text
    pub decodes : net.decode challenge.challenge ≡ ok data_
    pub plain : Text
    pub decrypts : net.private_decrypt data_ ≡ ok plain
    pub auth_response : Rs
    pub answered : W
    pub patches :
        net.send
          (net.body
            (net.encode plain)
            (net.request method_patch (net.set_path (codes "/auth/" ++ challenge.id) url)))
          read
        ≡ (ok auth_response, answered)
    pub jwt : Text
    pub admitted : W
    pub issues : net.authentication_info auth_response answered ≡ (ok jwt, admitted)
    pub accepts :
        (r : Rq)
        → (response : Rs) × (after : W) × (net.send (net.bearer_auth jwt r) admitted
            ≡ (ok response, after))
          × (is_refused (net.status response) ≡ false)

  renew-Admits :
      (s : Client W) (a : Admits s.world)
      → renew net url s ≡ (ok a.jwt, record { jwt = some a.jwt; world = a.admitted })
  unfolding renew prove_identity post_challenge get_challenge_bytes patch_answer replace_jwt settle
      go_on
  renew-Admits s a = rw (a.posts, a.reads, a.decodes, a.decrypts, a.patches, a.issues) refl

  -- The JWT that is kept is the one that was returned, and there is none after an error.
  pub data Kept : Result PipelineError Text × Client W → Type 0 where
    kept : (jwt : Text) (s : Client W) → s.jwt ≡ some jwt → Kept (ok jwt, s)
    forgotten : (e : PipelineError) (s : Client W) → s.jwt ≡ none → Kept (err e, s)
    died : (s : Client W) → Kept (panic, s)

  abbrev IsDrained : {A : Type 0} → Result PipelineError A × Client W → Type 0
  IsDrained x = x.1.jwt ≡ none

  go_on-IsDrained :
      {A B : Type 0} (f : A → Work (Client W) PipelineError B)
      (x : Result PipelineError A × Client W)
      → IsDrained x
      → ((a : A) (s : Client W) → s.jwt ≡ none → IsDrained (f a s))
      → IsDrained (go_on f x)
  unfolding go_on
  go_on-IsDrained f (ok a, s) e next = next a s e
  go_on-IsDrained f (err m, s) e next = e
  go_on-IsDrained f (panic, s) e next = e

  prove_identity-IsDrained : (s : Client W) → s.jwt ≡ none → IsDrained (prove_identity net url s)
  unfolding prove_identity post_challenge patch_answer settle
  prove_identity-IsDrained s e =
      go_on-IsDrained _ _
        (go_on-IsDrained _
          (in_world reqwest_error
            (net.send (net.request method_post (net.set_path (codes "/auth") url))) s)
          e (λ response t e'. e'))
        (λ challenge t1 e1.
          go_on-IsDrained _ (get_challenge_bytes net challenge, t1) e1
            (λ data_ t2 e2.
              go_on-IsDrained _ (map_err middleware_error (net.private_decrypt data_), t2) e2
                (λ plain t3 e3.
                  go_on-IsDrained _
                    (in_world reqwest_error
                      (net.send (
                        net.body (net.encode plain) (
                          net.request method_patch
                            (net.set_path (codes "/auth/" ++ challenge.id) url))))
                      t3)
                    e3 (λ response t e'. e'))))

  replace-Kept :
      (x : Result PipelineError Text × Client W) → IsDrained x → Kept (go_on (replace_jwt net) x)
  unfolding go_on replace_jwt
  replace-Kept (ok jwt, s) e = kept jwt (record s { jwt = some jwt }) refl
  replace-Kept (err m, s) e = forgotten m s e
  replace-Kept (panic, s) e = died s

  renew-Kept : (s : Client W) → Kept (renew net url s)
  unfolding renew
  renew-Kept s = replace-Kept _ (prove_identity-IsDrained (record s { jwt = none }) refl)

  held-Kept :
      (held : Option Text) (s : Client W)
      → s.jwt ≡ held
      → Kept (elim held [ some jwt ↦ (ok jwt, s) | none ↦ renew net url s ])
  held-Kept none s e = renew-Kept s
  held-Kept (some jwt) s e = kept jwt s e

  -- Whatever the board and the key do, after `authenticate` that returned a JWT the authenticator
  -- keeps just that JWT, and after one that failed it keeps none, so that the next request starts
  -- a new session.
  pub authenticate-Kept : (reauth : Bool) (s : Client W) → Kept (authenticate net url reauth s)
  unfolding authenticate
  authenticate-Kept true s = renew-Kept s
  authenticate-Kept false s = held-Kept s.jwt s refl

module _ {W Rq Rs : Type 0} (net : Net W Rq Rs) (url : Text) where
  -- What the client makes of a request for which the board lets it in.
  pub data Answered : Result RestError Rs × Client W → Type 0 where
    successful :
        (response : Rs) (s : Client W) (jwt : Text)
        → s.jwt ≡ some jwt
        → net.is_success response ≡ true
        → Answered (ok response, s)
    unsuccessful :
        (response : Rs) (s : Client W) (jwt : Text)
        → s.jwt ≡ some jwt
        → is_refused (net.status response) ≡ false
        → Answered (err (unsuccessful_status_code (net.status response)), s)

  -- a response that was not refused, and the JWT kept beside it
  record Accepted (x : Result PipelineError Rs × Client W) : Type 0 where
    response : Rs
    after : W
    jwt : Text
    comes : x ≡ (ok response, record { jwt = some jwt; world = after })
    is_accepted : is_refused (net.status response) ≡ false

  module _ (admits : (w : W) → Admits net url w)
      (answers : (r : Rq) (w : W)
        → (response : Rs) × (after : W) × (net.send r w ≡ (ok response, after)))
      (clones : (r : Rq) → net.try_clone r ≡ some r) (req : Rq) where
    abbrev context : Context net
    context = record { request = some req; next = from_index net [] }

    fresh-Accepted :
        (w : W) (a : Admits net url w)
        → Accepted
            (handle_with_jwt net context a.jwt (record { jwt = some a.jwt; world = a.admitted }))
    unfolding handle_with_jwt map_request from_index send_request settle
    fresh-Accepted w a =
        let (response, after, e, good) = a.accepts req in
        record {
          response = response;
          after = after;
          jwt = a.jwt;
          comes = rw e refl;
          is_accepted = good;
        }

    repeated-Accepted : (s : Client W) → Accepted (repeat_request net url (try_clone net context) s)
    unfolding repeat_request authenticate try_clone go_on
    repeated-Accepted s =
        rw (clones req, renew-Admits net url s (admits s.world))
          (fresh-Accepted s.world (admits s.world))

    on_response-Accepted :
        (response : Rs) (jwt : Text) (w : W)
        → Accepted (
            on_response net url
              (try_clone net context)
              response
              (record { jwt = some jwt; world = w }))
    unfolding on_response
    on_response-Accepted response jwt w = elim (Bool-cases (is_refused (net.status response))) [
      | inl refused ↦ rw refused (repeated-Accepted (record { jwt = some jwt; world = w }))
      | inr good ↦
          rw good
            (record { response = response; after = w; jwt = jwt; comes = refl; is_accepted = good })
    ]

    with_jwt-Accepted :
        (jwt : Text) (w : W)
        → Accepted (
            go_on
              (on_response net url (try_clone net context))
              (handle_with_jwt net context jwt (record { jwt = some jwt; world = w })))
    unfolding handle_with_jwt map_request from_index send_request settle go_on
    with_jwt-Accepted jwt w =
        let (response, after, e) = answers (net.bearer_auth jwt req) w in
        rw e (on_response-Accepted response jwt after)

    handle-Accepted :
        (held : Option Text) (w : W)
        → Accepted (handle net url context (record { jwt = held; world = w }))
    unfolding handle first_jwt authenticate go_on
    handle-Accepted none w =
        rw (renew-Admits net url (record { jwt = none; world = w }) (admits w))
          (with_jwt-Accepted (admits w).jwt (admits w).admitted)
    handle-Accepted (some jwt) w = with_jwt-Accepted jwt w

    checked-Answered :
        (x : Result PipelineError Rs × Client W)
        → Accepted x
        → Answered (go_on (check_status net) (convert net x))
    unfolding go_on check_status convert
    checked-Answered x a = rw a.comes (elim (Bool-cases (net.is_success a.response)) [
      | inl good ↦ rw good (successful a.response _ a.jwt refl good)
      | inr bad ↦ rw bad (unsuccessful a.response _ a.jwt refl a.is_accepted)
    ])

    -- When the board lets the client in whenever it is asked, every request is answered and requests
    -- can be cloned, the client gets an answer whatever JWT it holds, a stale one or none: either a
    -- successful response, or the error with a status code that is neither 401 nor 403; and it holds
    -- a JWT afterwards.
    pub request-Answered : (s : Client W) → Answered (request net url req s)
    unfolding request execute middlewares from_index
    request-Answered s = checked-Answered _ (handle-Accepted s.jwt s.world)
