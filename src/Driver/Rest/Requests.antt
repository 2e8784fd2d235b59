-- ===== src/Driver/Rest/Requests.antt =====
-- driver/src/restful/mod.rs: the requests of the client; the board is its own authentication server.
use wave_judge.Prelude.{
  ℕ, ◌==◌, Option, none, some, List, [], ◌∷◌, ◌++◌, Text, codes, Result, ok, err, map_err,
  if◌then◌else◌,
}
use wave_judge.Prelude.Work.{Work, ◌>>=◌, give}
use wave_judge.Driver.ObjectIds.{ObjectId, fmt}
use wave_judge.Driver.Rest.Pipeline.{
  PipelineError, method_get, method_patch, Net, Client, settle, in_world, Middleware, execute,
}
use wave_judge.Driver.Rest.Auth.{handle}

pub data RestError : Type 0 where
  pipeline_error : PipelineError → RestError
  io_error rest_reqwest_error : Text → RestError
  unsuccessful_status_code : ℕ → RestError

module _ {W Rq Rs : Type 0} (net : Net W Rq Rs) where
  unfoldable pub middlewares : Text → List (Middleware net)
  unfolding handle
  middlewares judge_board_url = handle net judge_board_url ∷ []

  unfoldable pub check_status : Rs → Work (Client W) RestError Rs
  check_status response =
      if net.is_success response
      then give (ok response)
      else give (err (unsuccessful_status_code (net.status response)))

  unfoldable pub convert :
      {A : Type 0} → Result PipelineError A × Client W → Result RestError A × Client W
  convert (r, s) = (map_err pipeline_error r, s)

  unfoldable pub request : Text → Rq → Work (Client W) RestError Rs
  unfolding execute middlewares check_status convert
  request judge_board_url req = do
    response ← (λ s. convert (execute net (middlewares judge_board_url) req s))
    check_status response

  unfoldable get : Text → Text → Work (Client W) RestError Rs
  unfolding request
  get judge_board_url path =
      request judge_board_url (net.request method_get (net.set_path path judge_board_url))

  unfoldable patch : Text → Text → Text → Work (Client W) RestError (Unit {0})
  unfolding request
  patch judge_board_url path payload = do
    response ←
        request judge_board_url
          (net.json payload (net.request method_patch (net.set_path path judge_board_url)))
    give (ok tt)

  unfoldable download_archive : Text → ObjectId → Work (Client W) RestError (Unit {0})
  unfolding get fmt settle
  download_archive judge_board_url archive_id = do
    response ← get judge_board_url (codes "/archives/" ++ fmt archive_id)
    in_world io_error (net.copy response)

  -- `.json()` of a response for a type of the board
  unfoldable get_problem_info :
      {T : Type 0} → (Rs → Work W Text T) → Text → ObjectId → Work (Client W) RestError T
  unfolding get fmt settle
  get_problem_info from_json judge_board_url problem_id = do
    response ← get judge_board_url (codes "/problems/" ++ fmt problem_id)
    in_world rest_reqwest_error (from_json response)

  unfoldable get_problem_timestamp :
      {T : Type 0} → (Rs → Work W Text T) → Text → ObjectId → Work (Client W) RestError T
  unfolding get fmt settle
  get_problem_timestamp from_json judge_board_url problem_id = do
    response ← get judge_board_url (codes "/problems/" ++ fmt problem_id ++ codes "/timestamp")
    in_world rest_reqwest_error (from_json response)

  unfoldable submission_of :
      {T : Type 0} → (Rs → Work W Text T) → Rs → Work (Client W) RestError (Option T)
  unfolding settle
  submission_of from_json response =
      if net.status response == 200
      then (do
        submission ← in_world rest_reqwest_error (from_json response)
        give (ok (some submission)))
      else give (ok none)

  unfoldable get_submission :
      {T : Type 0} → (Rs → Work W Text T) → Text → Work (Client W) RestError (Option T)
  unfolding get submission_of
  get_submission from_json judge_board_url = do
    response ← get judge_board_url (codes "/submissions")
    submission_of from_json response

  unfoldable patch_judge_result : Text → ObjectId → Text → Work (Client W) RestError (Unit {0})
  unfolding patch fmt
  patch_judge_result judge_board_url submission_id result =
      patch judge_board_url (codes "/submissions/" ++ fmt submission_id) result

  unfoldable patch_heartbeat : Text → Text → Work (Client W) RestError (Unit {0})
  unfolding patch
  patch_heartbeat judge_board_url hb = patch judge_board_url (codes "/judges") hb
