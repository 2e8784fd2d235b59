-- ===== src/Driver/Rest/Auth.antt =====
-- driver/src/restful/auth.rs: the session with the board. The key is in `Net`, the server's URL is
-- `auth_server`. The lock on the JWT is held during authenticate, so one thread's view is modelled.
use wave_judge.Prelude.{
  ℕ, ◌==◌, Bool, true, false, ◌||◌, Option, none, some, ◌++◌, Text, codes, Result, ok, err, map_err,
  if◌then◌else◌,
}
use wave_judge.Prelude.Work.{Work, ◌>>=◌, give}
use wave_judge.Driver.Rest.Pipeline.{
  PipelineError, reqwest_error, middleware_error, ChallengeInfo, method_post, method_patch, Net,
  Client, settle, in_world, display, Context, Middleware, invoke_next, try_clone, map_request,
}

-- 401 or 403
unfoldable pub is_refused : ℕ → Bool
is_refused status_code = (status_code == 401) || (status_code == 403)

module _ {W Rq Rs : Type 0} (net : Net W Rq Rs) where
  unfoldable pub post_challenge : Text → Work (Client W) PipelineError ChallengeInfo
  unfolding settle
  post_challenge auth_server = do
    response ←
        in_world reqwest_error
          (net.send (net.request method_post (net.set_path (codes "/auth") auth_server)))
    in_world reqwest_error (net.challenge_info response)

  unfoldable pub get_challenge_bytes : ChallengeInfo → Result PipelineError Text
  get_challenge_bytes c = map_err middleware_error (net.decode c.challenge)

  unfoldable pub patch_answer : Text → Text → Text → Work (Client W) PipelineError Text
  unfolding settle
  patch_answer auth_server id answer = do
    response ← in_world reqwest_error (
        net.send (
          net.body answer
            (net.request method_patch (net.set_path (codes "/auth/" ++ id) auth_server))))
    in_world reqwest_error (net.authentication_info response)

  unfoldable pub replace_jwt : Text → Work (Client W) PipelineError Text
  replace_jwt jwt s = (ok jwt, record s { jwt = some jwt })

  unfoldable pub prove_identity : Text → Work (Client W) PipelineError Text
  unfolding post_challenge get_challenge_bytes patch_answer
  prove_identity auth_server = do
    challenge ← post_challenge auth_server
    data_ ← give (get_challenge_bytes challenge)
    decrypted ← give (map_err middleware_error (net.private_decrypt data_))
    patch_answer auth_server challenge.id (net.encode decrypted)

  -- the drained lock, the exchange, and the new JWT
  unfoldable pub renew : Text → Work (Client W) PipelineError Text
  unfolding prove_identity replace_jwt
  renew auth_server s = (prove_identity auth_server >>= replace_jwt) (record s { jwt = none })

  unfoldable pub authenticate : Text → Bool → Work (Client W) PipelineError Text
  unfolding renew
  authenticate auth_server true s = renew auth_server s
  authenticate auth_server false s = elim s.jwt [
    | some jwt ↦ (ok jwt, s)
    | none ↦ renew auth_server s
  ]

  unfoldable pub handle_with_jwt : Context net → Text → Work (Client W) PipelineError Rs
  unfolding map_request
  handle_with_jwt context jwt = invoke_next net (map_request net (net.bearer_auth jwt) context)

  unfoldable pub repeat_request : Text → Option (Context net) → Work (Client W) PipelineError Rs
  unfolding authenticate handle_with_jwt
  repeat_request auth_server none =
      give
        (err (middleware_error (codes "failed to re-execute request after authentication failed.")))
  repeat_request auth_server (some saved_context) = do
    fresh_jwt ← authenticate auth_server true
    handle_with_jwt saved_context fresh_jwt

  unfoldable pub on_response : Text → Option (Context net) → Rs → Work (Client W) PipelineError Rs
  unfolding is_refused repeat_request
  on_response auth_server saved_context response =
      if is_refused (net.status response)
      then repeat_request auth_server saved_context
      else give (ok response)

  -- the error of the first authentication is wrapped
  unfoldable failed_to_authenticate : PipelineError → PipelineError
  unfolding display
  failed_to_authenticate e = middleware_error (codes "failed to authenticate: " ++ display e)

  unfoldable pub first_jwt :
      Result PipelineError Text × Client W → Result PipelineError Text × Client W
  unfolding failed_to_authenticate
  first_jwt (r, s) = (map_err failed_to_authenticate r, s)

  unfoldable pub handle : Text → Middleware net
  unfolding first_jwt authenticate try_clone handle_with_jwt on_response
  handle auth_server context = do
    jwt ← (λ s. first_jwt (authenticate auth_server false s))
    response ← handle_with_jwt context jwt
    on_response auth_server (try_clone net context) response
