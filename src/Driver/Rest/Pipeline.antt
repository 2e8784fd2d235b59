-- ===== src/Driver/Rest/Pipeline.antt =====
-- driver/src/restful/pipeline.rs: the middlewares that handle a request, up to its sending. `Net` is
-- reqwest, the key and base64, over a state `W`; `Client` has the JWT of the authenticator beside it.
use wave_judge.Prelude.{
  ℕ, Bool, Option, none, some, List, [], ◌∷◌, ◌++◌, Text, codes, Result, panic, map_err,
}
use wave_judge.Prelude.Work.{Work}

pub data PipelineError : Type 0 where
  reqwest_error middleware_error : Text → PipelineError

pub record ChallengeInfo : Type 0 where
  pub id : Text
  pub challenge : Text

-- The methods of the requests; a URL is a text.
pub data Method : Type 0 where
  method_get method_post method_patch : Method

-- `Rq` and `Rs` are the requests and responses of reqwest.
pub record Net (W Rq Rs : Type 0) : Type 0 where
  pub request : Method → Text → Rq
  pub set_path : Text → Text → Text
  pub body : Text → Rq → Rq
  pub json : Text → Rq → Rq
  pub bearer_auth : Text → Rq → Rq
  pub try_clone : Rq → Option Rq
  pub send : Rq → Work W Text Rs
  pub status : Rs → ℕ
  pub is_success : Rs → Bool
  pub challenge_info : Rs → Work W Text ChallengeInfo
  pub authentication_info : Rs → Work W Text Text
  pub copy : Rs → Work W Text (Unit {0})
  pub decode : Text → Result Text Text
  pub encode : Text → Text
  pub private_decrypt : Text → Result Text Text

-- The JWT of the authenticator, and the rest of the world.
pub record Client (W : Type 0) : Type 0 where
  pub jwt : Option Text
  pub world : W

-- A call on the world, whose error `?` converts.
unfoldable pub settle :
    {W E F A : Type 0} → (E → F) → Option Text → Result E A × W → Result F A × Client W
settle f jwt (r, w) = (map_err f r, record { jwt = jwt; world = w })

abbrev pub in_world : {W E F A : Type 0} → (E → F) → Work W E A → Work (Client W) F A
in_world f m s = settle f s.jwt (m s.world)

unfoldable pub display : PipelineError → Text
display (reqwest_error m) = m
display (middleware_error m) = codes "middleware error: " ++ m

module _ {W Rq Rs : Type 0} (net : Net W Rq Rs) where
  abbrev pub Handler : Type 0
  Handler = Option Rq → Work (Client W) PipelineError Rs

  -- The request, and the middlewares from `next_index` on.
  pub record Context : Type 0 where
    pub request : Option Rq
    pub next : Handler

  abbrev pub Middleware : Type 0
  Middleware = Context → Work (Client W) PipelineError Rs

  abbrev pub invoke_next : Middleware
  invoke_next context = context.next context.request

  unfoldable pub send_request : Handler
  unfolding settle
  send_request none s = (panic, s)
  send_request (some request) s = in_world reqwest_error (net.send request) s

  unfoldable pub from_index : List Middleware → Handler
  unfolding send_request
  from_index [] request = send_request request
  from_index (m ∷ ms) request = m (record { request = request; next = from_index ms })

  unfoldable pub execute : List Middleware → Rq → Work (Client W) PipelineError Rs
  unfolding from_index
  execute middlewares request = from_index middlewares (some request)

  unfoldable pub try_clone : Context → Option Context
  try_clone context = elim context.request [
    | none ↦ some (record { request = none; next = context.next })
    | some r ↦ elim (net.try_clone r) [
      | none ↦ none
      | some r' ↦ some (record { request = some r'; next = context.next })
    ]
  ]

  unfoldable pub map_request : (Rq → Rq) → Context → Context
  map_request f context = record context {
    request = elim context.request [ none ↦ none | some r ↦ some (f r) ];
  }
